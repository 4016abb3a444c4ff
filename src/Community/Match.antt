-- ===== src/Community/Match.antt =====
-- bgpstream_community_set_match and bgpstream_community_set_equal against what they look for.
use Prim.Native.Nat.{bit_and}
use bgpstream.Base.{
  ℕ, ◌≡◌, inl, inr, refl, Bool, true, false, ◌&&◌, ◌||◌, not, List, [], ◌∷◌, arith, All, ◌==◌,
  if◌then◌else◌, Bool-cases,
}
use bgpstream.Community.{
  Community, CommunitySet, has_asn, has_value, community_equal, match_loop, set_match, bcmp,
  set_equal,
}
use bgpstream.Community.Hash.{IsWithin, IsHashed, IsValid}

-- Whether a community is what a filter asks for, and whether some of a list is.
unfoldable pub fits : Community → ℕ → Community → Bool
fits comm mask c =
    (not (has_asn mask) || c.asn == comm.asn) && (not (has_value mask) || c.value == comm.value)

unfoldable pub some_fits : Community → ℕ → List Community → Bool
some_fits comm mask [] = false
some_fits comm mask (c ∷ next) = fits comm mask c || some_fits comm mask next

-- Whether a filter asks for no half that is 0.
unfoldable pub asks_nonzero : Community → ℕ → Bool
asks_nonzero comm mask =
    (not (has_asn mask) || not (comm.asn == 0)) && (not (has_value mask) || not (comm.value == 0))

split :
    (a p b q r s : Bool)
    → r ≡ s
    → (if a && not p then r else if b && not q then r else true)
      ≡ (((not a || p) && (not b || q)) || s)
split true true true true r s e = refl
split true true true false r s e = e
split true true false q r s e = refl
split true false b q r s e = e
split false p true true r s e = refl
split false p true false r s e = e
split false p false q r s e = refl

match_loop-some_fits :
    (comm : Community) (mask : ℕ) (cs : List Community)
    → match_loop comm mask cs ≡ some_fits comm mask cs
unfolding match_loop some_fits fits
match_loop-some_fits comm mask [] = refl
match_loop-some_fits comm mask (c ∷ next) =
    let rest = match_loop-some_fits comm mask next in
    split (has_asn mask) (c.asn == comm.asn) (has_value mask) (c.value == comm.value)
      (match_loop comm mask next) (some_fits comm mask next) rest

-- The test of one half of the hash.
half_test : (h x : ℕ) → IsWithin x h → (bit_and h x == 0) ≡ (x == 0)
half_test h x e = rw e refl

half_agrees :
    (a : Bool) (h x y : ℕ)
    → IsWithin y h
    → (not a || y == x) ≡ true
    → (not a || not (bit_and h x == 0)) ≡ (not a || not (x == 0))
half_agrees false h x y w e = refl
half_agrees true h x y w e =
    let same : y ≡ x = ground arith in rw (half_test h x (rw same at w)) refl

fits_test :
    (hash comm : Community) (mask : ℕ) (c : Community)
    → IsHashed hash c
    → fits comm mask c ≡ true
    → ((not (has_asn mask) || not (bit_and hash.asn comm.asn == 0))
        && (not (has_value mask) || not (bit_and hash.value comm.value == 0)))
      ≡ asks_nonzero comm mask
unfolding fits asks_nonzero
fits_test hash comm mask c h e =
    rw
      (
        half_agrees (has_asn mask) hash.asn comm.asn c.asn h.asn (ground arith),
        half_agrees (has_value mask) hash.value comm.value c.value h.value (ground arith),
      )
      refl

-- Where a community of the set fits, the test of the hash fails by a 0 alone.
hash_test :
    (hash comm : Community) (mask : ℕ) (cs : List Community)
    → All (IsHashed hash) cs
    → some_fits comm mask cs ≡ true
    → ((not (has_asn mask) || not (bit_and hash.asn comm.asn == 0))
        && (not (has_value mask) || not (bit_and hash.value comm.value == 0)))
      ≡ asks_nonzero comm mask
unfolding some_fits asks_nonzero
hash_test hash comm mask [] v e = absurd (cc e)
hash_test hash comm mask (c ∷ next) (h, hs) e = elim (Bool-cases (fits comm mask c)) [
  | inr other ↦ hash_test hash comm mask next hs (rw other at e)
  | inl own ↦ fits_test hash comm mask c h own
]

-- In a set whose hash has the bits of its communities, set_match finds exactly the communities that the
-- filter asks for, if the halves that it asks for are not 0; for a half that is 0 it finds none.
pub set_match-some_fits :
    (set : CommunitySet) (comm : Community) (mask : ℕ)
    → IsValid set
    → set_match set comm mask ≡ (asks_nonzero comm mask && some_fits comm mask set.communities)
unfolding set_match
set_match-some_fits set comm mask v = elim (Bool-cases (some_fits comm mask set.communities)) [
  | inl there ↦
      rw
        (
          match_loop-some_fits comm mask set.communities,
          there,
          hash_test set.communities_hash comm mask set.communities v there,
        )
        (ground arith)
  | inr absent ↦ rw (match_loop-some_fits comm mask set.communities, absent) (ground arith)
]

bcmp-same : (cs : List Community) → bcmp cs cs ≡ false
unfolding bcmp community_equal
bcmp-same [] = refl
bcmp-same (c ∷ cs) = rw (bcmp-same cs) (ground arith)

-- Two sets with the same communities in the same order are never equal for set_equal.
pub set_equal-same :
    (set1 set2 : CommunitySet) → set1.communities ≡ set2.communities → set_equal set1 set2 ≡ false
unfolding set_equal
set_equal-same set1 set2 e = rw (e, bcmp-same set2.communities) (ground arith)
