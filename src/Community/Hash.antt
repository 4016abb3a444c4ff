-- ===== src/Community/Hash.antt =====
-- The hash of a set of communities has the bits of each.
use Prim.Native.Nat.{bit_and, bit_or, max}
use bgpstream.Base.Bits.{bit_and_step, bit_or_step, bit_and-zero}
use bgpstream.Base.{ℕ, zero, suc, ◌/◌, ◌%◌, ◌≤◌, min, ◌≡◌, ap, ◌∙◌, List, [], ◌∷◌, ◌++◌, arith, All}
use bgpstream.Community.{
  Community, CommunitySet, join, no_hash, set_insert, hash_loop, populate_from_array_zc, of_words,
  set_populate,
}

-- The bits of x are among those of h.
abbrev pub IsWithin : ℕ → ℕ → Type 0
IsWithin x h = bit_and h x ≡ x

bit_or_half : (h y : ℕ) → bit_or h y / 2 ≡ bit_or (h / 2) (y / 2)
bit_or_half h y = omega (arith, bit_or_step h y)

bit_or_low : (h y : ℕ) → bit_or h y % 2 ≡ max (h % 2) (y % 2)
bit_or_low h y = omega (arith, bit_or_step h y)

-- An OR keeps the bits that a number has, and takes those of the other.
IsWithin-more : (n x h y : ℕ) → x ≤ n → IsWithin x h → IsWithin x (bit_or h y)
IsWithin-more zero x h y p e = let z : x ≡ 0 = omega arith in rw z (bit_and-zero (bit_or h y))
IsWithin-more (suc n) x h y p e =
    let s = bit_and_step h x in
    let half : IsWithin (x / 2) (h / 2) = omega (arith, s, e) in
    let low : min (h % 2) (x % 2) ≡ x % 2 = omega (arith, s, e) in
    let rest = IsWithin-more n (x / 2) (h / 2) (y / 2) (omega arith) half in
    let rest' : bit_and (bit_or h y / 2) (x / 2) ≡ x / 2 =
      ap (λ z. bit_and z (x / 2)) (bit_or_half h y) ∙ rest in
    omega (arith, bit_and_step (bit_or h y) x, rest', bit_or_low h y, low)

IsWithin-own : (n x h : ℕ) → x ≤ n → IsWithin x (bit_or h x)
IsWithin-own zero x h p = let z : x ≡ 0 = omega arith in rw z (bit_and-zero (bit_or h 0))
IsWithin-own (suc n) x h p =
    let rest = IsWithin-own n (x / 2) (h / 2) (omega arith) in
    let rest' : bit_and (bit_or h x / 2) (x / 2) ≡ x / 2 =
      ap (λ z. bit_and z (x / 2)) (bit_or_half h x) ∙ rest in
    omega (arith, bit_and_step (bit_or h x) x, rest', bit_or_low h x)

-- A hash has the bits of a community.
pub record IsHashed (hash c : Community) : Type 0 where
  pub asn : IsWithin c.asn hash.asn
  pub value : IsWithin c.value hash.value

-- The invariant of a set.
abbrev pub IsValid : CommunitySet → Type 0
IsValid set = All (IsHashed set.communities_hash) set.communities

IsHashed-more : (hash c d : Community) → IsHashed hash c → IsHashed (join hash d) c
unfolding join
IsHashed-more hash c d h = record {
  asn = IsWithin-more c.asn c.asn hash.asn d.asn (omega arith) h.asn;
  value = IsWithin-more c.value c.value hash.value d.value (omega arith) h.value;
}

IsHashed-own : (hash c : Community) → IsHashed (join hash c) c
unfolding join
IsHashed-own hash c = record {
  asn = IsWithin-own c.asn c.asn hash.asn (omega arith);
  value = IsWithin-own c.value c.value hash.value (omega arith);
}

All-more :
    (hash d : Community) (cs : List Community)
    → All (IsHashed hash) cs
    → All (IsHashed (join hash d)) cs
All-more hash d [] h = tt
All-more hash d (c ∷ cs) (h, hs) = (IsHashed-more hash c d h, All-more hash d cs hs)

All-last :
    (hash d : Community) (cs : List Community)
    → All (IsHashed hash) cs
    → IsHashed hash d
    → All (IsHashed hash) (cs ++ (d ∷ []))
All-last hash d [] h t = (t, tt)
All-last hash d (c ∷ cs) (h, hs) t = (h, All-last hash d cs hs t)

pub set_insert-IsValid :
    (set : CommunitySet) (comm : Community) → IsValid set → IsValid (set_insert set comm)
unfolding set_insert
set_insert-IsValid set comm v =
    let hash = join set.communities_hash comm in
    All-last hash comm set.communities (All-more set.communities_hash comm set.communities v)
      (IsHashed-own set.communities_hash comm)

-- The hash of a whole array.
hash_loop-more :
    (hash c : Community) (cs : List Community) → IsHashed hash c → IsHashed (hash_loop hash cs) c
unfolding hash_loop
hash_loop-more hash c [] h = h
hash_loop-more hash c (d ∷ cs) h = hash_loop-more (join hash d) c cs (IsHashed-more hash c d h)

hash_loop-All : (hash : Community) (cs : List Community) → All (IsHashed (hash_loop hash cs)) cs
unfolding hash_loop
hash_loop-All hash [] = tt
hash_loop-All hash (c ∷ cs) =
    (hash_loop-more (join hash c) c cs (IsHashed-own hash c), hash_loop-All (join hash c) cs)

pub set_populate-IsValid : (set : CommunitySet) (words : List ℕ) → IsValid (set_populate set words)
unfolding set_populate
set_populate-IsValid set words = hash_loop-All no_hash (of_words words)

pub populate_from_array-IsValid : (comms : List Community) → IsValid (populate_from_array_zc comms)
unfolding populate_from_array_zc
populate_from_array-IsValid comms = hash_loop-All no_hash comms
