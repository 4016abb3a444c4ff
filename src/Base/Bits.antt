-- ===== src/Base/Bits.antt =====
-- Masks of the high and the low bits of a machine word.
use Prim.Native.Nat.{ℕ, zero, suc, ◌+◌, ◌-◌, ◌*◌, ◌/◌, ◌%◌, ◌^◌, ◌≤◌, ◌<◌, min, max}
use Prim.Native.Nat.{bit_and, bit_or, digits, bit_and-bitwise, bit_or-bitwise}
use mathlib.Core.Path.{◌≡◌, refl, sym, ap, ap₂, ◌∙◌}
use native.Mathlib.Omega.{arith}

-- The native operations count the digits to go: a count above the first number changes nothing.
module _ (rest : ℕ → ℕ) (join : ℕ → ℕ → ℕ) where
  spare_digits :
      (bound count a b : ℕ)
      → count ≤ bound
      → a ≤ count
      → digits rest join count a b ≡ digits rest join a a b
  spare_digits bound zero zero b q p = refl
  spare_digits bound zero (suc a) b q p = absurd (omega arith)
  spare_digits zero (suc count) a b q p = absurd (omega arith)
  spare_digits (suc bound) (suc count) zero b q p = refl
  spare_digits (suc bound) (suc count) (suc a) b q p =
      ap (λ t. t * 2 + join (suc a % 2) (b % 2))
        (spare_digits bound count (suc a / 2) (b / 2) (omega arith) (omega arith)
          ∙ sym (spare_digits bound a (suc a / 2) (b / 2) (omega arith) (omega arith)))

-- The laws for the lowest digit.
pub bit_and_step : (a b : ℕ) → bit_and a b ≡ bit_and (a / 2) (b / 2) * 2 + min (a % 2) (b % 2)
bit_and_step zero b = rw (bit_and-bitwise 0 b, bit_and-bitwise 0 (b / 2)) (omega arith)
bit_and_step (suc a) b =
    let half = spare_digits (λ _. 0) min a a (suc a / 2) (b / 2) (omega arith) (omega arith) in
    rw (bit_and-bitwise (suc a) b, bit_and-bitwise (suc a / 2) (b / 2))
      (ap (λ t. t * 2 + min (suc a % 2) (b % 2)) half)

pub bit_or_step : (a b : ℕ) → bit_or a b ≡ bit_or (a / 2) (b / 2) * 2 + max (a % 2) (b % 2)
bit_or_step zero b = rw (bit_or-bitwise 0 b, bit_or-bitwise 0 (b / 2)) (omega arith)
bit_or_step (suc a) b =
    let half = spare_digits (λ x. x) max a a (suc a / 2) (b / 2) (omega arith) (omega arith) in
    rw (bit_or-bitwise (suc a) b, bit_or-bitwise (suc a / 2) (b / 2))
      (ap (λ t. t * 2 + max (suc a % 2) (b % 2)) half)

-- x with its low h bits cleared, and x shifted right by h, one bit at a time.
unfoldable pub clear_low : ℕ → ℕ → ℕ
clear_low x zero = x
clear_low x (suc h) = clear_low (x / 2) h * 2

unfoldable pub shift_right : ℕ → ℕ → ℕ
shift_right x zero = x
shift_right x (suc h) = shift_right (x / 2) h

-- clear_low in closed form.
pub clear_low-shift_right : (x h : ℕ) → clear_low x h ≡ shift_right x h * 2 ^ h
unfolding clear_low shift_right
clear_low-shift_right x zero = omega arith
clear_low-shift_right x (suc h) = grind (arith, clear_low-shift_right (x / 2) h)

-- A number lies in the block of 2 ^ h numbers from clear_low x h on exactly when it has the high
-- bits of x.
pub shift_right_block :
    (x y h : ℕ) → clear_low x h ≤ y → y < clear_low x h + 2 ^ h → shift_right y h ≡ shift_right x h
unfolding clear_low shift_right
shift_right_block x y zero p q = omega arith
shift_right_block x y (suc h) p q = shift_right_block (x / 2) (y / 2) h (omega arith) (omega arith)

pub block_of_shift_right :
    (x y h : ℕ)
    → shift_right y h ≡ shift_right x h
    → (clear_low x h ≤ y) × (y < clear_low x h + 2 ^ h)
unfolding clear_low shift_right
block_of_shift_right x y zero e = omega arith
block_of_shift_right x y (suc h) e = omega (arith, block_of_shift_right (x / 2) (y / 2) h e)

pub clear_low-le : (x h : ℕ) → clear_low x h ≤ x
clear_low-le x h = (block_of_shift_right x x h refl).0

pub clear_low_bound : (x w h : ℕ) → h ≤ w → x < 2 ^ w → clear_low x h + 2 ^ h ≤ 2 ^ w
unfolding clear_low
clear_low_bound x w zero p q = omega arith
clear_low_bound x zero (suc h) p q = absurd (omega arith)
clear_low_bound x (suc w) (suc h) p q =
    omega (arith, clear_low_bound (x / 2) w h (omega arith) (omega arith))

pub pow_pos : (h : ℕ) → 0 < 2 ^ h
pow_pos zero = omega arith
pow_pos (suc h) = omega (arith, pow_pos h)

pub pow_mono : (h w : ℕ) → h ≤ w → 2 ^ h ≤ 2 ^ w
pow_mono zero w p = omega (arith, pow_pos w)
pow_mono (suc h) zero p = absurd (omega arith)
pow_mono (suc h) (suc w) p = omega (arith, pow_mono h w (omega arith))

pub bit_and-zero : (x : ℕ) → bit_and x 0 ≡ 0
bit_and-zero x = all_below x x (omega arith)
  where
    all_below : (n y : ℕ) → y ≤ n → bit_and y 0 ≡ 0
    all_below zero zero p = refl
    all_below zero (suc y) p = absurd (omega arith)
    all_below (suc n) zero p = refl
    all_below (suc n) (suc y) p =
        omega (arith, bit_and_step (suc y) 0, all_below n (suc y / 2) (omega arith))

bit_and-ones : (x w : ℕ) → x < 2 ^ w → bit_and x (2 ^ w - 1) ≡ x
bit_and-ones zero w p = bit_and-bitwise 0 (2 ^ w - 1)
bit_and-ones (suc x) zero p = absurd (omega arith)
bit_and-ones (suc x) (suc w) p =
    let e : (2 ^ suc w - 1) / 2 ≡ 2 ^ w - 1 = omega (arith, pow_pos w) in
    omega (
      arith,
      bit_and_step (suc x) (2 ^ suc w - 1),
      ap (bit_and (suc x / 2)) e,
      bit_and-ones (suc x / 2) w (omega arith),
      pow_pos w,
    )

-- `x & mask` for the mask of the high w - h of w bits.
pub bit_and-high : (x w h : ℕ) → h ≤ w → x < 2 ^ w → bit_and x (2 ^ w - 2 ^ h) ≡ clear_low x h
unfolding clear_low
bit_and-high x w zero p q = bit_and-ones x w q
bit_and-high x zero (suc h) p q = absurd (omega arith)
bit_and-high x (suc w) (suc h) p q =
    let e : (2 ^ suc w - 2 ^ suc h) / 2 ≡ 2 ^ w - 2 ^ h = omega arith in
    omega (
      arith,
      bit_and_step x (2 ^ suc w - 2 ^ suc h),
      ap (bit_and (x / 2)) e,
      bit_and-high (x / 2) w h (omega arith) (omega arith),
    )

pub bit_or-zero : (x : ℕ) → bit_or x 0 ≡ x
bit_or-zero x = all_below x x (omega arith)
  where
    all_below : (n y : ℕ) → y ≤ n → bit_or y 0 ≡ y
    all_below zero zero p = refl
    all_below zero (suc y) p = absurd (omega arith)
    all_below (suc n) zero p = refl
    all_below (suc n) (suc y) p =
        omega (arith, bit_or_step (suc y) 0, all_below n (suc y / 2) (omega arith))

-- `x | low` for the mask of the low h bits, where x has none of them.
pub bit_or-low : (x h : ℕ) → bit_or (clear_low x h) (2 ^ h - 1) ≡ clear_low x h + (2 ^ h - 1)
unfolding clear_low
bit_or-low x zero = omega (arith, bit_or-zero x)
bit_or-low x (suc h) =
    let e : (2 ^ suc h - 1) / 2 ≡ 2 ^ h - 1 = omega (arith, pow_pos h) in
    let d : clear_low (x / 2) h * 2 / 2 ≡ clear_low (x / 2) h = omega arith in
    omega (
      arith,
      bit_or_step (clear_low (x / 2) h * 2) (2 ^ suc h - 1),
      ap₂ bit_or d e,
      bit_or-low (x / 2) h,
      pow_pos h,
    )

pub clear_low_mono : (x y h : ℕ) → x ≤ y → clear_low x h ≤ clear_low y h
unfolding clear_low
clear_low_mono x y zero p = p
clear_low_mono x y (suc h) p = omega (arith, clear_low_mono (x / 2) (y / 2) h (omega arith))

pub clear_low-pow : (w h : ℕ) → h ≤ w → clear_low (2 ^ w) h ≡ 2 ^ w
unfolding clear_low
clear_low-pow w zero p = refl
clear_low-pow zero (suc h) p = absurd (omega arith)
clear_low-pow (suc w) (suc h) p =
    let e : 2 ^ suc w / 2 ≡ 2 ^ w = omega arith in
    rw e (omega (arith, clear_low-pow w h (omega arith)))

pub clear_low-ones : (w h : ℕ) → h ≤ w → clear_low (2 ^ w - 1) h ≡ 2 ^ w - 2 ^ h
unfolding clear_low
clear_low-ones w zero p = refl
clear_low-ones zero (suc h) p = absurd (omega arith)
clear_low-ones (suc w) (suc h) p =
    let e : (2 ^ suc w - 1) / 2 ≡ 2 ^ w - 1 = omega (arith, pow_pos w) in
    rw e (omega (arith, clear_low-ones w h (omega arith)))
