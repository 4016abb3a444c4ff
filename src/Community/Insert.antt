-- ===== src/Community/Insert.antt =====
-- bgpstream_community_set_exists after an insert.
use bgpstream.Base.{ℕ, ◌≡◌, refl, ◌&&◌, ◌||◌, not, List, [], ◌∷◌, ◌++◌, arith, ◌==◌}
use bgpstream.Community.{
  Community, CommunitySet, has_asn, has_value, filter_exact, community_equal, set_insert,
  set_exists,
}
use bgpstream.Community.Hash.{IsValid, set_insert-IsValid}
use bgpstream.Community.Match.{fits, some_fits, asks_nonzero, set_match-some_fits}

some_fits_append :
    (comm : Community) (mask : ℕ) (xs ys : List Community)
    → some_fits comm mask (xs ++ ys) ≡ (some_fits comm mask xs || some_fits comm mask ys)
unfolding some_fits
some_fits_append comm mask [] ys = refl
some_fits_append comm mask (x ∷ xs) ys = rw (some_fits_append comm mask xs ys) (ground arith)

last :
    (set : CommunitySet) (c d : Community)
    → (asks_nonzero d filter_exact && some_fits d filter_exact (set_insert set c).communities) ≡ (
        (community_equal c d && (not (d.asn == 0) && not (d.value == 0)))
        || (asks_nonzero d filter_exact && some_fits d filter_exact set.communities))
unfolding set_insert
last set c d =
    rw (some_fits_append d filter_exact set.communities (c ∷ []))
      (unfold some_fits fits asks_nonzero has_asn has_value community_equal in ground arith)

-- After an insert into a set whose hash has the bits of its communities, set_exists finds what it found
-- before, and the new community if both its halves are not 0.
pub set_exists-set_insert :
    (set : CommunitySet) (c d : Community)
    → IsValid set
    → set_exists (set_insert set c) d
      ≡ ((community_equal c d && (not (d.asn == 0) && not (d.value == 0))) || set_exists set d)
unfolding set_exists
set_exists-set_insert set c d v =
    rw
      (
        set_match-some_fits (set_insert set c) d filter_exact (set_insert-IsValid set c v),
        set_match-some_fits set d filter_exact v,
      )
      (last set c d)
