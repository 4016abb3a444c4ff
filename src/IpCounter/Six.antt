-- ===== src/IpCounter/Six.antt =====
-- The IPv6 list against the IPv4 one: an address of two 64-bit halves is a 128-bit number, and the
-- comparisons on the halves are those of the numbers.
use mathlib.Core.Option
use bgpstream.Base.{
  ℕ, ◌+◌, ◌*◌, ◌^◌, ◌≤◌, ◌<◌, ◌≡◌, refl, ap, sym, ◌∙◌, Bool, true, false, ◌||◌, List, [], ◌∷◌,
  arith, ltb, leb, inl, inr, Bool-cases, All, some, none, Option, map,
}
use bgpstream.IpCounter.{
  V4Int, V6Int, gt6, le6, one_step_merge4, one_step_merge6, widen4, widen6_start, widen6_end,
  merge_in_sorted_queue4, merge_in_sorted_queue6,
}
use bgpstream.IpCounter.Covers.{
  in_range, covers, IsAscending, covers-merge_in_sorted_queue4, merge_in_sorted_queue4-IsAscending,
}

abbrev pub number : ℕ → ℕ → ℕ
number ms ls = ms * 2 ^ 64 + ls

abbrev pub as_numbers : V6Int → V4Int
as_numbers i = record { start = number i.start_ms i.start_ls; end = number i.end_ms i.end_ls }

-- The low halves are 64-bit words.
abbrev pub IsWords : V6Int → Type 0
IsWords i = (i.start_ls < 2 ^ 64) × (i.end_ls < 2 ^ 64)

gt6-ltb : (a b c d : ℕ) → b < 2 ^ 64 → d < 2 ^ 64 → gt6 a b c d ≡ ltb (number c d) (number a b)
unfolding gt6
gt6-ltb a b c d p q = ground arith

le6-leb : (a b c d : ℕ) → b < 2 ^ 64 → d < 2 ^ 64 → le6 a b c d ≡ leb (number a b) (number c d)
unfolding le6
le6-leb a b c d p q = ground arith

pub one_step_merge6-refines :
    (previous : V6Int) (l : List V6Int)
    → IsWords previous
    → All IsWords l
    → map as_numbers (one_step_merge6 previous l)
      ≡ one_step_merge4 (as_numbers previous) (map as_numbers l)
unfolding one_step_merge6 one_step_merge4
one_step_merge6-refines previous [] p h = refl
one_step_merge6-refines previous (current ∷ next) p h =
    rw
      (
        le6-leb current.start_ms current.start_ls previous.end_ms previous.end_ls h.0.0 p.1,
        gt6-ltb current.end_ms current.end_ls previous.end_ms previous.end_ls h.0.1 p.1,
      )
      (elim (Bool-cases
        (leb (number current.start_ms current.start_ls) (number previous.end_ms previous.end_ls))) [
          | inl meets ↦
              rw meets
                (elim (Bool-cases (
                  ltb (number previous.end_ms previous.end_ls)
                    (number current.end_ms current.end_ls))) [
                      | inl longer ↦ rw longer (
                          one_step_merge6-refines
                            (record previous { end_ms = current.end_ms; end_ls = current.end_ls })
                            next (p.0, h.0.1) h.1)
                      | inr shorter ↦ rw shorter (one_step_merge6-refines previous next p h.1)
                    ])
          | inr apart ↦ rw apart
        ])

widen6-refines :
    (current : V6Int) (start_ms start_ls end_ms end_ls : ℕ)
    → IsWords current
    → start_ls < 2 ^ 64
    → end_ls < 2 ^ 64
    → as_numbers (widen6_end (widen6_start current start_ms start_ls) end_ms end_ls)
      ≡ widen4 (as_numbers current) (number start_ms start_ls) (number end_ms end_ls)
unfolding widen6_end widen6_start widen4 gt6
widen6-refines current start_ms start_ls end_ms end_ls p q r = ground arith

widen6-IsWords :
    (current : V6Int) (start_ms start_ls end_ms end_ls : ℕ)
    → IsWords current
    → start_ls < 2 ^ 64
    → end_ls < 2 ^ 64
    → IsWords (widen6_end (widen6_start current start_ms start_ls) end_ms end_ls)
unfolding widen6_end widen6_start
widen6-IsWords current start_ms start_ls end_ms end_ls p q r = ground arith

map-cons :
    (i : V6Int) (o : Option (List V6Int))
    → Option.map (map as_numbers) (Option.map (◌∷◌ i) o)
      ≡ Option.map (◌∷◌ (as_numbers i)) (Option.map (map as_numbers) o)
map-cons i none = refl
map-cons i (some l) = refl

-- The insertion on 64-bit halves is the insertion on the 128-bit numbers, on every branch, the
-- failure of malloc included.
pub merge_in_sorted_queue6-refines :
    (alloc : Bool) (l : List V6Int) (start_ms start_ls end_ms end_ls : ℕ)
    → All IsWords l
    → start_ls < 2 ^ 64
    → end_ls < 2 ^ 64
    → Option.map (map as_numbers) (merge_in_sorted_queue6 alloc l start_ms start_ls end_ms end_ls)
      ≡ merge_in_sorted_queue4 alloc
          (map as_numbers l)
          (number start_ms start_ls)
          (number end_ms end_ls)
unfolding merge_in_sorted_queue6 merge_in_sorted_queue4
merge_in_sorted_queue6-refines true [] start_ms start_ls end_ms end_ls h p q = refl
merge_in_sorted_queue6-refines false [] start_ms start_ls end_ms end_ls h p q = refl
merge_in_sorted_queue6-refines alloc (current ∷ next) start_ms start_ls end_ms end_ls h p q =
    rw
      (
        gt6-ltb start_ms start_ls current.end_ms current.end_ls p h.0.1,
        gt6-ltb current.start_ms current.start_ls end_ms end_ls h.0.0 q,
      )
      (elim (Bool-cases (ltb (number current.end_ms current.end_ls) (number start_ms start_ls))) [
        | inl skip ↦ rw skip (
            map-cons current (merge_in_sorted_queue6 alloc next start_ms start_ls end_ms end_ls)
            ∙ ap (Option.map (◌∷◌ (as_numbers current)))
                (merge_in_sorted_queue6-refines alloc next start_ms start_ls end_ms end_ls h.1 p q))
        | inr stop ↦
            rw stop
              (elim (Bool-cases
                (ltb (number end_ms end_ls) (number current.start_ms current.start_ls))) [
                  | inl before ↦ rw before (elim (Bool-cases alloc) [ inl e ↦ rw e | inr e ↦ rw e ])
                  | inr meets ↦
                      rw (meets, ← widen6-refines current start_ms start_ls end_ms end_ls h.0 p q)
                        (ap some (
                          one_step_merge6-refines
                            (widen6_end (widen6_start current start_ms start_ls) end_ms end_ls) next
                            (widen6-IsWords current start_ms start_ls end_ms end_ls h.0 p q) h.1))
                ])
      ])

-- A successful IPv6 insertion covers the addresses from the new first to the new last one and what
-- was covered before, and nothing else, and keeps the intervals ascending and apart.
merge_in_sorted_queue6-covers :
    (alloc : Bool) (l l' : List V6Int) (start_ms start_ls end_ms end_ls : ℕ)
    → All IsWords l
    → start_ls < 2 ^ 64
    → end_ls < 2 ^ 64
    → IsAscending 0 (map as_numbers l)
    → number start_ms start_ls ≤ number end_ms end_ls
    → merge_in_sorted_queue6 alloc l start_ms start_ls end_ms end_ls ≡ some l'
    → IsAscending 0 (map as_numbers l')
      × ((x : ℕ)
          → covers (map as_numbers l') x ≡ (
              in_range (number start_ms start_ls) (number end_ms end_ls) x
              || covers (map as_numbers l) x))
merge_in_sorted_queue6-covers alloc l l' start_ms start_ls end_ms end_ls h p q a r e =
    let e' : merge_in_sorted_queue4 alloc (map as_numbers l) (number start_ms start_ls)
          (number end_ms end_ls)
        ≡ some (map as_numbers l') =
      sym (merge_in_sorted_queue6-refines alloc l start_ms start_ls end_ms end_ls h p q)
      ∙ ap (Option.map (map as_numbers)) e in
    (
      merge_in_sorted_queue4-IsAscending alloc (map as_numbers l) (map as_numbers l') 0
          (number start_ms start_ls) (number end_ms end_ls) a (omega arith) r e',
      λ x.
          covers-merge_in_sorted_queue4 alloc (map as_numbers l) (map as_numbers l') 0
            (number start_ms start_ls) (number end_ms end_ls) x a r e',
    )
