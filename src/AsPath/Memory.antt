-- ===== src/AsPath/Memory.antt =====
-- Bytes of memory, for lib/utils/bgpstream_utils_as_path.c: a block is a function from offsets, a
-- uint32_t has its low byte first, as on the machines that the library is built for.
use bgpstream.Base.{
  ℕ, zero, suc, ◌+◌, ◌*◌, ◌/◌, ◌%◌, ◌≤◌, ◌<◌, ◌≡◌, refl, sym, ap, ◌∙◌, Bool, true, false, ◌&&◌,
  List, [], ◌∷◌, ◌++◌, arith, ltb, ◌==◌, if◌then◌else◌, length,
}

abbrev pub Mem : Type 0
Mem = ℕ → ℕ

unfoldable pub poke : Mem → ℕ → ℕ → Mem
poke mem i b = λ j. if j == i then b else mem j

unfoldable pub word : Mem → ℕ → ℕ
word mem i = mem i + 256 * mem (i + 1) + 65536 * mem (i + 2) + 16777216 * mem (i + 3)

unfoldable pub poke_word : Mem → ℕ → ℕ → Mem
poke_word mem i n =
    poke (poke (poke (poke mem i (n % 256)) (i + 1) (n / 256 % 256)) (i + 2) (n / 65536 % 256))
      (i + 3) (n / 16777216 % 256)

unfoldable pub memcpy : Mem → Mem → ℕ → Mem
memcpy dst src len = λ i. if ltb i len then src i else dst i

-- `bcmp` is 0.
unfoldable pub same_bytes : Mem → Mem → ℕ → Bool
same_bytes a b zero = true
same_bytes a b (suc len) = same_bytes a b len && a len == b len

-- The bytes from an offset on.
unfoldable pub Holds : Mem → ℕ → List ℕ → Type 0
Holds mem off [] = Unit
Holds mem off (b ∷ bs) = (mem off ≡ b) × Holds mem (suc off) bs

-- They depend on their own part of the memory alone.
pub Holds-agree :
    (a b : Mem) (off : ℕ) (bs : List ℕ)
    → ((i : ℕ) → off ≤ i → i < off + length bs → b i ≡ a i)
    → Holds a off bs
    → Holds b off bs
unfolding Holds
Holds-agree a b off [] same h = tt
Holds-agree a b off (x ∷ bs) same (h, hs) = (
  cc (same off (omega arith) (omega arith)),
  Holds-agree a b (suc off) bs (λ i p q. same i (omega arith) (omega arith)) hs,
)

-- A part of them elsewhere.
pub Holds-shift :
    (a b : Mem) (from to : ℕ) (bs : List ℕ)
    → ((i : ℕ) → i < length bs → b (to + i) ≡ a (from + i))
    → Holds a from bs
    → Holds b to bs
unfolding Holds
Holds-shift a b from to [] same h = tt
Holds-shift a b from to (x ∷ bs) same (h, hs) = (
  let e = same 0 (omega arith) in
      let p : to + 0 ≡ to = omega arith in
      let q : from + 0 ≡ from = omega arith in cc (ap a q, ap b p),
  Holds-shift a b (suc from) (suc to) bs
      (λ i p.
        let u : suc to + i ≡ to + suc i = omega arith in
        let v : suc from + i ≡ from + suc i = omega arith in
        ap b u ∙ same (suc i) (omega arith) ∙ ap a (sym v))
      hs,
)

pub Holds-append :
    (mem : Mem) (off to : ℕ) (xs ys : List ℕ)
    → off + length xs ≡ to
    → Holds mem off xs
    → Holds mem to ys
    → Holds mem off (xs ++ ys)
unfolding Holds
Holds-append mem off to [] ys e h k = let at : off ≡ to = omega arith in rw at k
Holds-append mem off to (x ∷ xs) ys e (h, hs) k =
    (h, Holds-append mem (suc off) to xs ys (omega arith) hs k)

pub Holds-split :
    (mem : Mem) (off to : ℕ) (xs ys : List ℕ)
    → off + length xs ≡ to
    → Holds mem off (xs ++ ys)
    → Holds mem off xs × Holds mem to ys
unfolding Holds
Holds-split mem off to [] ys e h = let at : off ≡ to = omega arith in (tt, rw at at h)
Holds-split mem off to (x ∷ xs) ys e (h, hs) =
    let (a, b) = Holds-split mem (suc off) to xs ys (omega arith) hs in ((h, a), b)

pub poke-at : (mem : Mem) (i b : ℕ) → poke mem i b i ≡ b
unfolding poke
poke-at mem i b = ground arith

pub poke-other : (mem : Mem) (i b j : ℕ) → (j == i) ≡ false → poke mem i b j ≡ mem j
unfolding poke
poke-other mem i b j ne = rw ne refl

pub poke_word-Holds :
    (mem : Mem) (i n : ℕ)
    → Holds
        (poke_word mem i n)
        i
        (n % 256 ∷ (n / 256 % 256) ∷ (n / 65536 % 256) ∷ (n / 16777216 % 256) ∷ [])
unfolding Holds poke_word poke
poke_word-Holds mem i n = (ground arith, (ground arith, (ground arith, (ground arith, tt))))

pub poke_word-below : (mem : Mem) (i n j : ℕ) → j < i → poke_word mem i n j ≡ mem j
unfolding poke_word poke
poke_word-below mem i n j p = ground arith
