-- ===== src/Community/Examples.antt =====
-- The set of 3356:100 and 0:666.
use bgpstream.Base.{
  ℕ, ◌≡◌, ◌≢◌, refl, false, ◌&&◌, ◌||◌, not, some, List, [], ◌∷◌, arith, ◌==◌, All,
}
use bgpstream.AsPath.Print.{digits}
use bgpstream.Community.{
  Community, filter_exact, community_equal, populate_from_array_zc, set_create, set_insert,
  set_match, set_exists, set_equal,
}
use bgpstream.Community.Hash.{set_insert-IsValid, populate_from_array-IsValid}
use bgpstream.Community.Match.{some_fits, asks_nonzero, set_match-some_fits, set_equal-same}
use bgpstream.Community.Insert.{set_exists-set_insert}
use bgpstream.Community.Parse.{str2community}
use bgpstream.Community.Print.{community_text, community_snprintf}
use bgpstream.Community.Printed.{IsPrinted, str2community-snprintf}
use bgpstream.Community.SetPrinted.{rest_text, set_text}

abbrev level3 : Community
level3 = record { asn = 3356; value = 100 }

abbrev blackhole : Community
blackhole = record { asn = 0; value = 666 }

abbrev two : List Community
two = level3 ∷ (blackhole ∷ [])

set_match_example : set_match (populate_from_array_zc two) blackhole filter_exact ≡ (
    asks_nonzero blackhole filter_exact
    && some_fits blackhole filter_exact (populate_from_array_zc two).communities)
set_match_example =
    set_match-some_fits (populate_from_array_zc two) blackhole filter_exact
      (populate_from_array-IsValid two)

set_equal-same_example : set_equal (populate_from_array_zc two) (populate_from_array_zc two) ≡ false
set_equal-same_example =
    set_equal-same (populate_from_array_zc two) (populate_from_array_zc two) refl

set_exists_example : set_exists (set_insert (set_insert set_create level3) blackhole) blackhole ≡ (
    (community_equal blackhole blackhole
      && (not (blackhole.asn == 0) && not (blackhole.value == 0)))
    || set_exists (set_insert set_create level3) blackhole)
set_exists_example =
    set_exists-set_insert (set_insert set_create level3) blackhole blackhole
      (set_insert-IsValid set_create level3 tt)

str2community_example :
    let printed = community_snprintf (λ i. 7) 3 12 level3 in
    (text : List ℕ) × IsPrinted (λ i. 7) 3 12 text printed.0 printed.1
    × All (λ c. c ≢ 0) text
    × (str2community text ≡ some (level3, filter_exact))
str2community_example =
    str2community-snprintf (λ i. 7) 3 12 level3 (omega arith) (omega arith) (omega arith)

two_text :
    set_text two
    ≡ b'3' ∷ b'3' ∷ b'5' ∷ b'6' ∷ b':' ∷ b'1' ∷ b'0' ∷ b'0' ∷ b' ' ∷ b'0' ∷ b':' ∷ b'6' ∷ b'6'
      ∷ b'6' ∷ []
unfolding set_text rest_text community_text digits
two_text = refl
