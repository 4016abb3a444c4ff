-- ===== src/IpCounter/Distinct.antt =====
-- Prefixes added one after another: the counter reports the number of distinct addresses.
use bgpstream.Base.Bits.{clear_low, clear_low_bound, pow_pos, clear_low_mono, clear_low-pow}
use bgpstream.Base.Count.{count_from, count_from-ext}
use bgpstream.Base.{
  ℕ, suc, ◌+◌, ◌-◌, ◌^◌, ◌≤◌, ◌<◌, ◌≡◌, ◌⊎◌, refl, ap, ◌∙◌, Bool, true, false, ◌||◌, List, [], ◌∷◌,
  arith, ltb, leb, or_false, or_rotate, inl, inr, if◌then◌else◌, Bool-cases, All, some, none,
  Option,
}
use bgpstream.IpCounter.{V4Int, IpCounter, create, add, v4, get_ipcount, one_step_merge4, widen4}
use bgpstream.IpCounter.Covers.{
  covers, IsAscending, IsAscending-weaken, inserted4, merge_in_sorted_queue4-alloc,
}
use bgpstream.IpCounter.Counting.{IsPartial, ipcount4_loop_lem, count_from-le}
use bgpstream.IpCounter.Prefixes.{pfx4, in_pfx4, first, last, add-covers}

-- The counter after an `add` for which memory was found.
unfoldable pub after : IpCounter → ℕ → ℕ → IpCounter
after ipc address mask_len = record ipc {
  v4list =
      inserted4 ipc.v4list (clear_low address (32 - mask_len))
        (clear_low address (32 - mask_len) + (2 ^ (32 - mask_len) - 1));
}

pub add-alloc :
    (ipc : IpCounter) (address mask_len : ℕ)
    → mask_len ≤ 32
    → address < 2 ^ 32
    → add true ipc (pfx4 address mask_len) ≡ some (after ipc address mask_len)
unfolding add after
add-alloc ipc address mask_len p q =
    rw (last address mask_len p q, first address mask_len p q, merge_in_sorted_queue4-alloc)

-- Both ends lie in one half of the address space: an interval that is not the whole of it.
abbrev InHalf : V4Int → Type 0
InHalf i = (i.end < 2 ^ 31) ⊎ ((2 ^ 31 ≤ i.start) × (i.end < 2 ^ 32))

block-InHalf :
    (address h : ℕ)
    → h ≤ 31
    → address < 2 ^ 32
    → InHalf (record { start = clear_low address h; end = clear_low address h + (2 ^ h - 1) })
block-InHalf address h p q = elim (Bool-cases (ltb address (2 ^ 31))) [
  | inl low ↦ inl (omega (arith, clear_low_bound address 31 h p (ground arith), pow_pos h))
  | inr high ↦ inr (
    omega (arith, clear_low-pow 31 h p, clear_low_mono (2 ^ 31) address h (ground arith)),
    omega (arith, clear_low_bound address 32 h (omega arith) q, pow_pos h),
  )
]

one_step_merge4-InHalf :
    (previous : V4Int) (l : List V4Int)
    → InHalf previous
    → All InHalf l
    → IsAscending (suc previous.start) l
    → All InHalf (one_step_merge4 previous l)
unfolding one_step_merge4
one_step_merge4-InHalf previous [] p h a = (p, tt)
one_step_merge4-InHalf previous (current ∷ next) p h a =
    elim (Bool-cases (leb current.start previous.end)) [
      | inl meets ↦ rw meets (
          one_step_merge4-InHalf
            (if ltb previous.end current.end
              then record previous { end = current.end }
              else previous)
            next (ground arith) h.1
            (IsAscending-weaken (suc current.end) _ next (ground arith) a.2))
      | inr apart ↦ rw apart (p, h)
    ]

inserted4-InHalf :
    (l : List V4Int) (b start end : ℕ)
    → IsAscending b l
    → start ≤ end
    → InHalf (record { start = start; end = end })
    → All InHalf l
    → All InHalf (inserted4 l start end)
unfolding inserted4 widen4
inserted4-InHalf [] b start end a p n h = (n, tt)
inserted4-InHalf (current ∷ next) b start end a p n h = elim (Bool-cases (ltb current.end start)) [
  | inl skip ↦ rw skip (h.0, inserted4-InHalf next (suc current.end) start end a.2 p n h.1)
  | inr stop ↦ rw stop (elim (Bool-cases (ltb end current.start)) [
    | inl before ↦ rw before (n, h)
    | inr meets ↦ rw meets (
        one_step_merge4-InHalf _ next (ground arith) h.1
          (IsAscending-weaken (suc current.end) _ next (ground arith) a.2))
  ])
]

-- The prefixes, added one after the other, as long as memory is found.
pub add_all : List (ℕ × ℕ) → IpCounter → Option IpCounter
add_all [] ipc = some ipc
add_all ((address, mask_len) ∷ prefixes) ipc = elim (add true ipc (pfx4 address mask_len)) [
  | none ↦ none
  | some ipc' ↦ add_all prefixes ipc'
]

-- x lies in one of the prefixes.
pub in_some_pfx4 : List (ℕ × ℕ) → ℕ → Bool
in_some_pfx4 [] x = false
in_some_pfx4 ((address, mask_len) ∷ prefixes) x =
    in_pfx4 address mask_len x || in_some_pfx4 prefixes x

-- An IPv4 prefix other than the whole address space.
abbrev pub IsPfx4 : ℕ × ℕ → Type 0
IsPfx4 p = (p.0 < 2 ^ 32) × (1 ≤ p.1) × (p.1 ≤ 32)

Half-IsPartial : (b : ℕ) (l : List V4Int) → All InHalf l → All IsPartial l
Half-IsPartial b [] h = tt
Half-IsPartial b (i ∷ l) h = (ground arith, Half-IsPartial b l h.1)

add_all-covers :
    (prefixes : List (ℕ × ℕ)) (ipc : IpCounter)
    → All IsPfx4 prefixes
    → IsAscending 0 ipc.v4list
    → All InHalf ipc.v4list
    → (ipc' : IpCounter) × (add_all prefixes ipc ≡ some ipc')
      × IsAscending 0 ipc'.v4list
      × All InHalf ipc'.v4list
      × ((x : ℕ) → covers ipc'.v4list x ≡ (in_some_pfx4 prefixes x || covers ipc.v4list x))
unfolding add_all in_some_pfx4
add_all-covers [] ipc p a h = (ipc, refl, a, h, λ x. refl)
add_all-covers ((address, mask_len) ∷ prefixes) ipc p a h =
    let added = add-alloc ipc address mask_len p.0.2 p.0.0 in
    let next =
      add-covers true ipc (after ipc address mask_len) address mask_len a p.0.2 p.0.0 added in
    let halves : All InHalf (after ipc address mask_len).v4list =
      unfold after in
      inserted4-InHalf ipc.v4list 0 _ _ a (omega arith)
        (block-InHalf address (32 - mask_len) (omega arith) p.0.0) h in
    let (ipc', all, a', h', c) =
      add_all-covers prefixes (after ipc address mask_len) p.1 next.0 halves in
    (
      ipc',
      rw (added, add_all) all,
      a',
      h',
      λ x.
          c x
          ∙ ap (λ (t : Bool). in_some_pfx4 prefixes x || t) (next.1 x)
          ∙ or_rotate (in_pfx4 address mask_len x) (in_some_pfx4 prefixes x) (covers ipc.v4list x),
    )

-- For any IPv4 prefixes other than 0.0.0.0/0, in any order and with any overlaps, the counter that
-- they were added to reports the number of distinct addresses that lie in one of them.
pub ipcount-distinct :
    (prefixes : List (ℕ × ℕ))
    → All IsPfx4 prefixes
    → (ipc : IpCounter) × (add_all prefixes create ≡ some ipc)
      × (get_ipcount ipc v4 ≡ count_from 0 (2 ^ 32) (in_some_pfx4 prefixes))
unfolding get_ipcount covers
ipcount-distinct prefixes p =
    let (ipc, all, a, h, c) = add_all-covers prefixes create p tt tt in
    let same : count_from 0 (2 ^ 32) (covers ipc.v4list)
        ≡ count_from 0 (2 ^ 32) (in_some_pfx4 prefixes) =
      count_from-ext 0 (2 ^ 32) _ _ (λ x q r. c x ∙ or_false (in_some_pfx4 prefixes x)) in
    (
      ipc,
      all,
      ipcount4_loop_lem ipc.v4list 0 0 a (Half-IsPartial 0 ipc.v4list h)
            (omega (arith, count_from-le 0 (2 ^ 32) (covers ipc.v4list)))
          ∙ omega (arith, same),
    )
