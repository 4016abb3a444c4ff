-- ===== src/Community.antt =====
-- lib/utils/bgpstream_utils_community.c: the sets of communities. A community is its two 16-bit halves,
-- and so is the hash of a set, which the code keeps in a uint32_t. The array of a set is its first
-- communities_cnt elements, and realloc does not fail.
pub mod Hash
pub mod Match
pub mod Insert
pub mod Parse
pub mod Print
pub mod Printed
pub mod SetPrinted
mod Examples
use Prim.Native.Nat.{bit_and, bit_or}
use bgpstream.Base.{
  ℕ, ◌+◌, ◌-◌, ◌*◌, ◌/◌, ◌%◌, ◌^◌, Bool, true, false, ◌&&◌, ◌||◌, not, Option, none, some, List, [],
  ◌∷◌, ◌++◌, ltb, ◌==◌, if◌then◌else◌, length, get_elem?,
}

pub record Community : Type 0 where
  pub asn : ℕ
  pub value : ℕ

pub record CommunitySet : Type 0 where
  pub communities : List Community
  pub communities_hash : Community

-- BGPSTREAM_COMMUNITY_FILTER_ASN, _VALUE and _EXACT: the masks 2, 1 and 3.
unfoldable pub has_asn : ℕ → Bool
has_asn mask = mask / 2 % 2 == 1

unfoldable pub has_value : ℕ → Bool
has_value mask = mask % 2 == 1

abbrev pub filter_exact : ℕ
filter_exact = 3

unfoldable pub community_hash : Community → ℕ
community_hash comm = bit_or comm.asn comm.value

unfoldable pub community_equal : Community → Community → Bool
community_equal comm1 comm2 = comm1.asn == comm2.asn && comm1.value == comm2.value

-- The OR of a community into a hash.
unfoldable pub join : Community → Community → Community
join hash comm = record { asn = bit_or hash.asn comm.asn; value = bit_or hash.value comm.value }

abbrev pub no_hash : Community
no_hash = record { asn = 0; value = 0 }

abbrev pub set_create : CommunitySet
set_create = record { communities = []; communities_hash = no_hash }

unfoldable pub set_clear : CommunitySet → CommunitySet
set_clear set = record { communities = []; communities_hash = no_hash }

unfoldable pub set_insert : CommunitySet → Community → CommunitySet
set_insert set comm = record {
  communities = set.communities ++ (comm ∷ []);
  communities_hash = join set.communities_hash comm;
}

-- bgpstream_community_set_copy into a set.
unfoldable pub set_copy : CommunitySet → CommunitySet → CommunitySet
set_copy dst src = src

unfoldable pub hash_loop : Community → List Community → Community
hash_loop hash [] = hash
hash_loop hash (c ∷ comms) = hash_loop (join hash c) comms

unfoldable pub populate_from_array_zc : List Community → CommunitySet
populate_from_array_zc comms = record {
  communities = comms;
  communities_hash = hash_loop no_hash comms;
}

unfoldable pub populate_from_array : CommunitySet → List Community → CommunitySet
populate_from_array set comms = set_copy set (populate_from_array_zc comms)

-- bgpstream_community_set_populate from the 32-bit words of an attribute, in host byte order.
unfoldable pub of_words : List ℕ → List Community
of_words [] = []
of_words (comval ∷ words) =
    record { asn = comval / 2 ^ 16 % 2 ^ 16; value = comval % 2 ^ 16 } ∷ of_words words

unfoldable pub set_populate : CommunitySet → List ℕ → CommunitySet
set_populate set words = record {
  communities = of_words words;
  communities_hash = hash_loop no_hash (of_words words);
}

unfoldable pub set_get : CommunitySet → ℕ → Option Community
set_get set i = if ltb i (length set.communities) then get_elem? set.communities i else none

unfoldable pub set_size : CommunitySet → ℕ
set_size set = length set.communities

-- bgpstream_community_set_hash, on 32 bits.
unfoldable pub set_hash_loop : ℕ → List Community → ℕ
set_hash_loop h [] = h
set_hash_loop h (c ∷ next) =
    set_hash_loop ((h * 2 ^ 5 + (2 ^ 32 - h) + community_hash c) % 2 ^ 32) next

unfoldable pub set_hash : List Community → ℕ
set_hash [] = 0
set_hash (c ∷ next) = set_hash_loop (community_hash c) next

-- The loop of set_match over the communities.
unfoldable pub match_loop : Community → ℕ → List Community → Bool
match_loop comm mask [] = false
match_loop comm mask (c ∷ next) =
    let rest = match_loop comm mask next in
    if has_asn mask && not (c.asn == comm.asn)
    then rest
    else if has_value mask && not (c.value == comm.value)
    then rest
    else true

unfoldable pub set_match : CommunitySet → Community → ℕ → Bool
set_match set comm mask =
    let hash = set.communities_hash in
    if (not (has_asn mask) || not (bit_and hash.asn comm.asn == 0))
      && (not (has_value mask) || not (bit_and hash.value comm.value == 0))
    then match_loop comm mask set.communities
    else false

unfoldable pub set_exists : CommunitySet → Community → Bool
set_exists set comm = set_match set comm filter_exact

-- bcmp of two arrays of the same length: true where it returns something other than 0.
unfoldable pub bcmp : List Community → List Community → Bool
bcmp [] [] = false
bcmp [] (y ∷ ys) = true
bcmp (x ∷ xs) [] = true
bcmp (x ∷ xs) (y ∷ ys) = not (community_equal x y) || bcmp xs ys

unfoldable pub set_equal : CommunitySet → CommunitySet → Bool
set_equal set1 set2 =
    (community_equal set1.communities_hash set2.communities_hash
      && length set1.communities == length set2.communities)
    && bcmp set1.communities set2.communities
