-- ===== src/IpCounter/Covers.antt =====
-- The addresses that a list of IPv4 intervals covers, and the invariant of the list: its intervals
-- are not empty, ascend and do not meet.
use bgpstream.Base.{
  ℕ, suc, ◌≤◌, ◌<◌, ◌≡◌, refl, sym, ap, ◌∙◌, or_assoc, Bool, true, false, ◌&&◌, ◌||◌, some, List,
  [], ◌∷◌, arith, ltb, leb, inl, inr, ◌⊎◌, none, if◌then◌else◌, Bool-cases,
}
use bgpstream.IpCounter.{V4Int, one_step_merge4, widen4, merge_in_sorted_queue4}

abbrev pub in_range : ℕ → ℕ → ℕ → Bool
in_range start end x = leb start x && leb x end

unfoldable pub covers : List V4Int → ℕ → Bool
covers [] x = false
covers (i ∷ l) x = in_range i.start i.end x || covers l x

-- The intervals ascend from b on, with no address in two of them.
abbrev pub IsAscending : ℕ → List V4Int → Type 0
IsAscending b [] = Unit {0}
IsAscending b (i ∷ l) = (b ≤ i.start) × (i.start ≤ i.end) × IsAscending (suc i.end) l

pub IsAscending-weaken : (b c : ℕ) (l : List V4Int) → c ≤ b → IsAscending b l → IsAscending c l
IsAscending-weaken b c [] p h = tt
IsAscending-weaken b c (i ∷ l) p h = (omega arith, h.1, h.2)

-- Nothing below the first interval is covered.
pub covers-below : (b x : ℕ) (l : List V4Int) → IsAscending b l → x < b → covers l x ≡ false
unfolding covers
covers-below b x [] h p = refl
covers-below b x (i ∷ l) h p = ground (arith, covers-below (suc i.end) x l h.2)

pub covers-one_step_merge4 :
    (previous : V4Int) (l : List V4Int) (b x : ℕ)
    → previous.start ≤ b
    → IsAscending b l
    → covers (one_step_merge4 previous l) x ≡ (in_range previous.start previous.end x || covers l x)
unfolding covers one_step_merge4
covers-one_step_merge4 previous [] b x p h = refl
covers-one_step_merge4 previous (current ∷ next) b x p h = ground (
  arith,
  covers-one_step_merge4 (record previous { end = current.end }) next (suc current.end) x,
  covers-one_step_merge4 previous next (suc current.end) x,
)

pub one_step_merge4-IsAscending :
    (previous : V4Int) (l : List V4Int) (b c : ℕ)
    → b ≤ previous.start
    → previous.start ≤ previous.end
    → IsAscending c l
    → IsAscending b (one_step_merge4 previous l)
unfolding one_step_merge4
one_step_merge4-IsAscending previous [] b c p q h = (p, q, tt)
one_step_merge4-IsAscending previous (current ∷ next) b c p q h =
    elim (Bool-cases (leb current.start previous.end)) [
      | inl meets ↦ rw meets (
          one_step_merge4-IsAscending
            (if ltb previous.end current.end
              then record previous { end = current.end }
              else previous)
            next b (suc current.end) (ground arith) (ground arith) h.2)
      | inr apart ↦ rw apart (p, q, (ground arith, h.1, h.2))
    ]

pub covers-widen4 :
    (current : V4Int) (start end x : ℕ)
    → current.start ≤ current.end
    → start ≤ end
    → start ≤ current.end
    → current.start ≤ end
    → in_range (widen4 current start end).start (widen4 current start end).end x
      ≡ (in_range start end x || in_range current.start current.end x)
unfolding widen4
covers-widen4 current start end x p q r s = ground arith

widen4_start :
    (current : V4Int) (start end : ℕ)
    → current.start ≤ current.end
    → (widen4 current start end).start ≤ suc current.end
unfolding widen4
widen4_start current start end p = ground arith

-- The list after an insertion for which memory was found.
unfoldable pub inserted4 : List V4Int → ℕ → ℕ → List V4Int
inserted4 [] start end = record { start = start; end = end } ∷ []
inserted4 (current ∷ next) start end =
    if ltb current.end start
    then current ∷ inserted4 next start end
    else if ltb end current.start
    then record { start = start; end = end } ∷ current ∷ next
    else one_step_merge4 (widen4 current start end) next

-- Where malloc succeeds the insertion does.
pub merge_in_sorted_queue4-alloc :
    (l : List V4Int) (start end : ℕ)
    → merge_in_sorted_queue4 true l start end ≡ some (inserted4 l start end)
unfolding merge_in_sorted_queue4 inserted4
merge_in_sorted_queue4-alloc [] start end = refl
merge_in_sorted_queue4-alloc (current ∷ next) start end =
    ground (arith, merge_in_sorted_queue4-alloc next start end)

merge_in_sorted_queue4-cases :
    (alloc : Bool) (l : List V4Int) (start end : ℕ)
    → (merge_in_sorted_queue4 alloc l start end ≡ none)
      ⊎ (merge_in_sorted_queue4 alloc l start end ≡ some (inserted4 l start end))
unfolding merge_in_sorted_queue4 inserted4
merge_in_sorted_queue4-cases true [] start end = inr refl
merge_in_sorted_queue4-cases false [] start end = inl refl
merge_in_sorted_queue4-cases alloc (current ∷ next) start end =
    ground (arith, merge_in_sorted_queue4-cases alloc next start end)

inserted4_of_some :
    (alloc : Bool) (l l' : List V4Int) (start end : ℕ)
    → merge_in_sorted_queue4 alloc l start end ≡ some l'
    → l' ≡ inserted4 l start end
inserted4_of_some alloc l l' start end e =
    ground (arith, merge_in_sorted_queue4-cases alloc l start end)

covers-inserted4 :
    (l : List V4Int) (b start end x : ℕ)
    → IsAscending b l
    → start ≤ end
    → covers (inserted4 l start end) x ≡ (in_range start end x || covers l x)
unfolding inserted4 covers
covers-inserted4 [] b start end x h p = refl
covers-inserted4 (current ∷ next) b start end x h p = elim (Bool-cases (ltb current.end start)) [
  | inl skip ↦ rw skip (ground (arith, covers-inserted4 next (suc current.end) start end x))
  | inr stop ↦ rw stop (elim (Bool-cases (ltb end current.start)) [
    | inl before ↦ rw before
    | inr meets ↦ rw meets (
        covers-one_step_merge4 (widen4 current start end) next (suc current.end) x
          (widen4_start current start end h.1) h.2
        ∙ ap (λ (t : Bool). t || covers next x)
            (covers-widen4 current start end x h.1 p (ground arith) (ground arith))
        ∙ sym (
            or_assoc (in_range start end x) (in_range current.start current.end x) (covers next x)))
  ])
]

inserted4-IsAscending :
    (l : List V4Int) (b start end : ℕ)
    → IsAscending b l
    → b ≤ start
    → start ≤ end
    → IsAscending b (inserted4 l start end)
unfolding inserted4 widen4
inserted4-IsAscending [] b start end h p q = (p, q, tt)
inserted4-IsAscending (current ∷ next) b start end h p q =
    elim (Bool-cases (ltb current.end start)) [
      | inl skip ↦
          rw skip
            (h.0, h.1, inserted4-IsAscending next (suc current.end) start end h.2 (ground arith) q)
      | inr stop ↦ rw stop (elim (Bool-cases (ltb end current.start)) [
        | inl before ↦ rw before (p, q, (ground arith, h.1, h.2))
        | inr meets ↦ rw meets (
            one_step_merge4-IsAscending _ next b (suc current.end) (ground arith) (ground arith)
              h.2)
      ])
    ]

-- A successful insertion covers the new interval and what was covered before, and nothing else.
pub covers-merge_in_sorted_queue4 :
    (alloc : Bool) (l l' : List V4Int) (b start end x : ℕ)
    → IsAscending b l
    → start ≤ end
    → merge_in_sorted_queue4 alloc l start end ≡ some l'
    → covers l' x ≡ (in_range start end x || covers l x)
covers-merge_in_sorted_queue4 alloc l l' b start end x h p e =
    rw (inserted4_of_some alloc l l' start end e) (covers-inserted4 l b start end x h p)

-- A successful insertion keeps the invariant.
pub merge_in_sorted_queue4-IsAscending :
    (alloc : Bool) (l l' : List V4Int) (b start end : ℕ)
    → IsAscending b l
    → b ≤ start
    → start ≤ end
    → merge_in_sorted_queue4 alloc l start end ≡ some l'
    → IsAscending b l'
merge_in_sorted_queue4-IsAscending alloc l l' b start end h p q e =
    rw (inserted4_of_some alloc l l' start end e) (inserted4-IsAscending l b start end h p q)
