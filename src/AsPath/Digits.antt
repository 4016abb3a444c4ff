-- ===== src/AsPath/Digits.antt =====
-- The decimal digits that lib/utils prints for a number, and what strtoul reads of them.
use bgpstream.Base.{
  ℕ, zero, suc, ◌+◌, ◌-◌, ◌*◌, ◌/◌, ◌%◌, ◌≤◌, ◌<◌, ◌≡◌, inl, inr, refl, ap, ◌∙◌, true, List, [],
  ◌∷◌, arith, ltb, length, All, Bool-cases,
}
use bgpstream.Base.CString.{is_digit, read_digits, starts_digit}
use bgpstream.AsPath.Print.{digits, decimal}

-- A power of ten.
unfoldable pub tens : ℕ → ℕ
tens zero = 1
tens (suc places) = 10 * tens places

-- All bytes of the text have a property that the digits have.
pub digits-All :
    (P : ℕ → Type 0) (places n : ℕ) (text : List ℕ)
    → ((d : ℕ) → d < 10 → P (48 + d))
    → All P text
    → All P (digits places n text)
unfolding digits
digits-All P zero n text each t = t
digits-All P (suc places) n text each t = elim (Bool-cases (ltb n 10)) [
  | inl last ↦ rw (digits, last) (each n (ground arith), t)
  | inr more ↦
      rw (digits, more)
        (digits-All P places (n / 10) ((48 + n % 10) ∷ text) each (each (n % 10) (omega arith), t))
]

-- A number below a power of ten has no more digits than that.
pub length-digits :
    (places n q : ℕ) (text : List ℕ)
    → n < tens q
    → 0 < q
    → length (digits places n text) ≤ q + length text
unfolding digits tens
length-digits zero n q text lt pos = omega arith
length-digits (suc places) n zero text lt pos = absurd (omega arith)
length-digits (suc places) n (suc zero) text lt pos =
    let last : ltb n 10 ≡ true = ground arith in rw (digits, last) (omega arith)
length-digits (suc places) n (suc (suc q)) text lt pos = elim (Bool-cases (ltb n 10)) [
  | inl last ↦ rw (digits, last) (omega arith)
  | inr more ↦
      rw (digits, more)
        (omega (
          arith,
          length-digits places (n / 10) (suc q) ((48 + n % 10) ∷ text) (omega arith) (omega arith),
        ))
]

-- The digits are read back, and what is behind them after the number.
pub read_digits-digits :
    (places n : ℕ) (text : List ℕ)
    → n < tens places
    → read_digits (digits places n text) 0 ≡ read_digits text n
unfolding digits tens read_digits is_digit
read_digits-digits zero n text lt = let e : 0 ≡ n = omega arith in ap (read_digits text) e
read_digits-digits (suc places) n text lt = elim (Bool-cases (ltb n 10)) [
  | inl last ↦
      let digit : is_digit (48 + n) ≡ true = ground arith in
      let value : 0 * 10 + (48 + n - 48) ≡ n = omega arith in
      rw (digits, last, read_digits, digit, value) refl
  | inr more ↦
      let digit : is_digit (48 + n % 10) ≡ true = ground arith in
      let value : n / 10 * 10 + (48 + n % 10 - 48) ≡ n = omega arith in
      rw (digits, more)
        (read_digits-digits places (n / 10) ((48 + n % 10) ∷ text) (omega arith)
          ∙ rw (read_digits, digit, value) refl)
]

starts-digits :
    (places n : ℕ) (text : List ℕ)
    → starts_digit text ≡ true
    → starts_digit (digits places n text) ≡ true
unfolding digits is_digit
starts-digits zero n text s = s
starts-digits (suc places) n text s = elim (Bool-cases (ltb n 10)) [
  | inl last ↦ rw (digits, last) (ground arith)
  | inr more ↦
      rw (digits, more) (starts-digits places (n / 10) ((48 + n % 10) ∷ text) (ground arith))
]

pub starts-decimal : (n : ℕ) → starts_digit (decimal n) ≡ true
unfolding digits is_digit
starts-decimal n = elim (Bool-cases (ltb n 10)) [
  | inl last ↦ rw (digits, last) (ground arith)
  | inr more ↦ rw (digits, more) (starts-digits 9 (n / 10) ((48 + n % 10) ∷ []) (ground arith))
]
