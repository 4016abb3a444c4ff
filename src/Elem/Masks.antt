-- ===== src/Elem/Masks.antt =====
-- lib/bgpstream_filter.c: the bits of the mask of element types.
use Prim.Native.Nat.{bit_or}
use bgpstream.Base.{
  ℕ, zero, suc, ◌<◌, ◌≡◌, ◌⊎◌, inl, inr, refl, sym, Bool, true, false, ◌&&◌, ◌||◌, not, some, List,
  arith, ltb, ◌==◌, Bool-cases,
}
use bgpstream.Elem.Filters.{has_bit}
use bgpstream.Elem.Adding.{type_bit}

-- The four bits of the mask.
unfoldable pub IsBit : ℕ → Type 0
IsBit b = (b ≡ 1) ⊎ ((b ≡ 2) ⊎ ((b ≡ 4) ⊎ (b ≡ 8)))

pub type_bit-IsBit : (text : List ℕ) (b : ℕ) → type_bit text ≡ some b → IsBit b
unfolding type_bit IsBit
type_bit-IsBit text b e = ground arith

same_bool : Bool → Bool → Bool
same_bool true b = b
same_bool false b = not b

same_bool_sound : (a b : Bool) → same_bool a b ≡ true → a ≡ b
unfolding same_bool
same_bool_sound true b e = sym e
same_bool_sound false true e = absurd (cc e)
same_bool_sound false false e = refl

cell : ℕ → ℕ → ℕ → Bool
cell m b c =
    same_bool (has_bit (bit_or m b) c) (has_bit m c || b == c)
    && (ltb (bit_or m b) 16 && not (bit_or m b == 0))

row : ℕ → ℕ → Bool
row m b = cell m b 1 && (cell m b 2 && (cell m b 4 && cell m b 8))

rows : ℕ → Bool
rows zero = true
rows (suc m) = (row m 1 && (row m 2 && (row m 4 && row m 8))) && rows m

table : rows 16 ≡ true
unfolding rows row cell same_bool has_bit
table = refl

rows_at : (n m : ℕ) → rows n ≡ true → m < n → (row m 1 && (row m 2 && (row m 4 && row m 8))) ≡ true
unfolding rows
rows_at zero m e lt = absurd (omega arith)
rows_at (suc n) m e lt = elim (Bool-cases (m == n)) [
  | inl at ↦ let same : m ≡ n = ground arith in rw same (ground arith)
  | inr other ↦ rows_at n m (ground arith) (ground arith)
]

cell_at : (m b c : ℕ) → m < 16 → IsBit b → IsBit c → cell m b c ≡ true
unfolding IsBit row
cell_at m b c lt i j =
    let all_rows = rows_at 16 m table lt in
    elim i [
      | inl e ↦ rw e (pick m 1 c (ground arith) j)
      | inr (inl e) ↦ rw e (pick m 2 c (ground arith) j)
      | inr (inr (inl e)) ↦ rw e (pick m 4 c (ground arith) j)
      | inr (inr (inr e)) ↦ rw e (pick m 8 c (ground arith) j)
    ]
  where
    pick : (m b c : ℕ) → row m b ≡ true → IsBit c → cell m b c ≡ true
    pick m b c r j = elim j [
      | inl e ↦ rw e (ground arith)
      | inr (inl e) ↦ rw e (ground arith)
      | inr (inr (inl e)) ↦ rw e (ground arith)
      | inr (inr (inr e)) ↦ rw e (ground arith)
    ]

pub or_bits :
    (m b c : ℕ)
    → m < 16
    → IsBit b
    → IsBit c
    → (has_bit (bit_or m b) c ≡ (has_bit m c || b == c))
      × (bit_or m b < 16)
      × ((bit_or m b == 0) ≡ false)
unfolding cell
or_bits m b c lt i j =
    let e = cell_at m b c lt i j in
    (
      same_bool_sound (has_bit (bit_or m b) c) (has_bit m c || b == c) (ground arith),
      ground arith,
      ground arith,
    )
