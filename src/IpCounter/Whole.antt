-- ===== src/IpCounter/Whole.antt =====
-- What the 32-bit arithmetic of get_ipcount makes of the whole IPv4 address space, and the overlap of
-- a prefix with a counter.
use mathlib.Core.Path.{ap₂}
use native.Mathlib.Nat.{div-div-eq-div-mul}
use bgpstream.Base.Bits.{
  clear_low, shift_right, bit_or-low, clear_low-shift_right, clear_low_bound, clear_low-le, pow_pos,
  pow_mono, clear_low-ones,
}
use bgpstream.Base.Count.{count_from}
use bgpstream.Base.{
  ℕ, zero, suc, ◌+◌, ◌-◌, ◌*◌, ◌/◌, ◌%◌, ◌^◌, ◌≤◌, ◌<◌, ◌≡◌, refl, sym, ap, or_false, ◌∙◌, Bool,
  true, false, List, [], ◌∷◌, arith, ◌==◌, All, some,
}
use bgpstream.IpCounter.{
  V4Int, IpCounter, add, v4, get_ipcount, one_step_merge4, widen4, is_overlapping4, ipcount4_loop,
  not32,
}
use bgpstream.IpCounter.Covers.{IsAscending, inserted4, covers}
use bgpstream.IpCounter.Counting.{contains, overlap4_loop_lem, count_from-le}
use bgpstream.IpCounter.Prefixes.{pfx4}
use bgpstream.IpCounter.Distinct.{after, add-alloc}

abbrev IsAddress : V4Int → Type 0
IsAddress i = (i.start ≤ i.end) × (i.end < 2 ^ 32)

one_step_merge4-whole :
    (l : List V4Int)
    → All IsAddress l
    → one_step_merge4 (record { start = 0; end = 2 ^ 32 - 1 }) l
      ≡ record { start = 0; end = 2 ^ 32 - 1 } ∷ []
unfolding one_step_merge4
one_step_merge4-whole [] h = refl
one_step_merge4-whole (i ∷ l) h = ground (arith, one_step_merge4-whole l h.1)

inserted4-whole :
    (l : List V4Int)
    → All IsAddress l
    → inserted4 l 0 (2 ^ 32 - 1) ≡ record { start = 0; end = 2 ^ 32 - 1 } ∷ []
unfolding inserted4 widen4
inserted4-whole [] h = refl
inserted4-whole (i ∷ l) h = ground (arith, one_step_merge4-whole l h.1)

shift_right-div : (x h : ℕ) → shift_right x h ≡ x / 2 ^ h
unfolding shift_right
shift_right-div x zero = omega arith
shift_right-div x (suc h) =
    shift_right-div (x / 2) h ∙ div-div-eq-div-mul x 2 (2 ^ h) ∙ ap (λ t. x / t) (omega arith)

-- A counter that 0.0.0.0/0 was added to reports no IPv4 address at all: the size of the one interval
-- that is left, 2 ^ 32, is computed on 32 bits.
pub ipcount-whole :
    (ipc ipc' : IpCounter) (address : ℕ)
    → All IsAddress ipc.v4list
    → address < 2 ^ 32
    → add true ipc (pfx4 address 0) ≡ some ipc'
    → get_ipcount ipc' v4 ≡ 0
unfolding get_ipcount ipcount4_loop after
ipcount-whole ipc ipc' address h p e =
    let zeroed : clear_low address 32 ≡ 0 =
      omega (arith, clear_low_bound address 32 32 (omega arith) p) in
    let same : after ipc address 0 ≡ ipc' = cc (add-alloc ipc address 0 (omega arith) p, e) in
    rw (← same) (rw zeroed (rw (inserted4-whole ipc.v4list h)))

-- Shifting a word right and back clears its low bits.
shift_back : (x h : ℕ) → x < 2 ^ 32 → x / 2 ^ h * 2 ^ h % 2 ^ 32 ≡ clear_low x h
shift_back x h p =
    let d : x / 2 ^ h * 2 ^ h ≡ clear_low x h =
      ap (λ (t : ℕ). t * 2 ^ h) (sym (shift_right-div x h)) ∙ sym (clear_low-shift_right x h) in
    rw d (omega (arith, clear_low-le x h))

-- The overlap of an IPv4 prefix of length 1 to 32 with a counter: the number of covered addresses
-- among the 2 ^ (32 - mask_len) of the prefix, and whether one interval holds them all.
pub is_overlapping4_lem :
    (ipc : IpCounter) (address mask_len : ℕ)
    → IsAscending 0 ipc.v4list
    → 1 ≤ mask_len
    → mask_len ≤ 32
    → address < 2 ^ 32
    → is_overlapping4 ipc address mask_len
      ≡ some (
        count_from (clear_low address (32 - mask_len)) (2 ^ (32 - mask_len)) (covers ipc.v4list),
        contains ipc.v4list
            (clear_low address (32 - mask_len))
            (clear_low address (32 - mask_len) + (2 ^ (32 - mask_len) - 1)),
      )
unfolding is_overlapping4
is_overlapping4_lem ipc address mask_len h p q r =
    let len = 32 - mask_len in
    let start = clear_low address len in
    let end = start + (2 ^ len - 1) in
    let some_len : 0 < 2 ^ len = pow_pos len in
    let half : 2 ^ len ≤ 2 ^ 31 = pow_mono len 31 (omega arith) in
    let fits : start + 2 ^ len ≤ 2 ^ 32 = clear_low_bound address 32 len (omega arith) r in
    let low : not32 (clear_low (not32 0) len) ≡ 2 ^ len - 1 =
      omega (arith, clear_low-ones 32 len (omega arith)) in
    let size : suc end - start ≡ 2 ^ len = omega arith in
    let loop =
      overlap4_loop_lem ipc.v4list 0 start end 0 false h (omega arith) (omega arith) (omega arith)
        (omega (arith, count_from-le start (suc end - start) (covers ipc.v4list))) in
    let given : (mask_len == 0) ≡ false = ground arith in
    rw
      (
        given,
        shift_back address len r,
        shift_back (not32 0) len (omega arith),
        low,
        bit_or-low address len,
      )
      (ap₂ (λ (n : ℕ) (b : Bool). some (n, b))
        (loop.0 ∙ omega (arith, ap (λ (t : ℕ). count_from start t (covers ipc.v4list)) size))
        (loop.1 ∙ or_false (contains ipc.v4list start end)))
