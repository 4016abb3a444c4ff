-- ===== src/Base/CString.antt =====
-- What the C standard library does with texts, which are lists of bytes here: strchr and strtoul.
use Prim.Native.Nat.{ℕ, ◌+◌, ◌-◌, ◌*◌, ◌%◌, ◌^◌}
use mathlib.Core.Bool.{Bool, true, false, ◌&&◌, ◌||◌, not}
use mathlib.Core.Option.{Option, none, some}
use mathlib.Core.List.{List, [], ◌∷◌}
use bgpstream.Base.Tests.{leb, ◌==◌, if◌then◌else◌}

-- What stands in front of the first such byte, and behind it.
unfoldable pub split_at : ℕ → List ℕ → Option (List ℕ × List ℕ)
split_at c [] = none
split_at c (x ∷ xs) =
    let rest : Option (List ℕ × List ℕ) = split_at c xs in
    if x == c
    then some ([], xs)
    else elim rest [ none ↦ none | some (front, back) ↦ some (x ∷ front, back) ]

unfoldable pub is_digit : ℕ → Bool
is_digit c = leb 48 c && leb c 57

unfoldable pub is_space : ℕ → Bool
is_space c = c == 32 || (leb 9 c && leb c 13)

-- The digits from here on: the number, and what is behind them.
unfoldable pub read_digits : List ℕ → ℕ → ℕ × List ℕ
read_digits [] n = (n, [])
read_digits (c ∷ cs) n = if is_digit c then read_digits cs (n * 10 + (c - 48)) else (n, c ∷ cs)

abbrev pub starts_digit : List ℕ → Bool
starts_digit [] = false
starts_digit (c ∷ cs) = is_digit c

-- Of a number: its sign, whether it has digits, its value, and what is behind.
unfoldable pub read_number : Bool → List ℕ → List ℕ → ℕ × List ℕ × Bool
read_number negative whole text =
    let (n, rest) = read_digits text 0 in
    if not (starts_digit text)
    then (0, whole, false)
    else if leb (2 ^ 64) n
    then (2 ^ 64 - 1, rest, true)
    else (if negative then (2 ^ 64 - n) % 2 ^ 64 else n, rest, false)

unfoldable pub read_signed : List ℕ → List ℕ → ℕ × List ℕ × Bool
read_signed whole [] = read_number false whole []
read_signed whole (c ∷ cs) =
    if c == 45
    then read_number true whole cs
    else if c == 43
    then read_number false whole cs
    else read_number false whole (c ∷ cs)

unfoldable pub skip_space : List ℕ → List ℕ
skip_space [] = []
skip_space (c ∷ cs) = if is_space c then skip_space cs else c ∷ cs

-- strtoul(text, &endptr, 10) on 64 bits: the value, the text at endptr, and whether errno is ERANGE.
unfoldable pub strtoul : List ℕ → ℕ × List ℕ × Bool
strtoul text = read_signed text (skip_space text)
