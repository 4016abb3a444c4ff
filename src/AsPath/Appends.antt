-- ===== src/AsPath/Appends.antt =====
-- lib/utils/bgpstream_utils_as_path.c: text that is written into a buffer of a length.
use mathlib.Core.Path.{subst}
use bgpstream.Base.{
  ℕ, zero, suc, min, ◌+◌, ◌-◌, ◌≤◌, ◌<◌, ◌≡◌, ◌⊎◌, inl, inr, refl, ap, ◌∙◌, List, [], ◌∷◌, ◌++◌,
  arith, ltb, leb, length, length-append, take, Bool-cases,
}
use bgpstream.AsPath.Memory.{Mem, poke, Holds, Holds-append, Holds-agree, poke-at, poke-other}
use bgpstream.AsPath.Print.{write, add_char}

-- From a buffer with `from` characters to one with `to`, whose new ones are this text, as far as the
-- length of the buffer leaves room for them and a NUL; nothing else changes.
pub record Appends (buf len : ℕ) (text : List ℕ) (mem : Mem) (from : ℕ) (mem' : Mem) (to : ℕ)
    : Type 0 where
  pub count : to ≡ from + length text
  pub there : Holds mem' (buf + from) (take (len - 1 - from) text)
  pub frame : (i : ℕ) → (i < buf + from) ⊎ (buf + len ≤ i) → mem' i ≡ mem i

pub take_le {ℓ} : {A : Type ℓ} (k : ℕ) (xs : List A) → length xs ≤ k → take k xs ≡ xs
take_le zero [] h = refl
take_le zero (x ∷ xs) h = absurd (omega arith)
take_le (suc k) [] h = refl
take_le (suc k) (x ∷ xs) h = ap (λ l. x ∷ l) (take_le k xs (omega arith))

pub length-take :
    (k : ℕ) (xs : List ℕ) → (length (take k xs) ≤ k) × (length (take k xs) ≤ length xs)
length-take zero xs = (omega arith, omega arith)
length-take (suc k) [] = (omega arith, omega arith)
length-take (suc k) (x ∷ xs) = let (a, b) = length-take k xs in (omega arith, omega arith)

take-append-le : (k : ℕ) (xs ys : List ℕ) → k ≤ length xs → take k (xs ++ ys) ≡ take k xs
take-append-le zero xs ys h = refl
take-append-le (suc k) [] ys h = absurd (omega arith)
take-append-le (suc k) (x ∷ xs) ys h = ap (λ l. x ∷ l) (take-append-le k xs ys (omega arith))

take-append-ge :
    (k j : ℕ) (xs ys : List ℕ) → k ≡ length xs + j → take k (xs ++ ys) ≡ xs ++ take j ys
take-append-ge k j [] ys h = ap (λ n. take n ys) (omega arith)
take-append-ge zero j (x ∷ xs) ys h = absurd (omega arith)
take-append-ge (suc k) j (x ∷ xs) ys h = ap (λ l. x ∷ l) (take-append-ge k j xs ys (omega arith))

pub Holds-take :
    (mem : Mem) (off k : ℕ) (xs : List ℕ) → Holds mem off xs → Holds mem off (take k xs)
unfolding Holds
Holds-take mem off zero xs h = tt
Holds-take mem off (suc k) [] h = tt
Holds-take mem off (suc k) (x ∷ xs) (h, hs) = (h, Holds-take mem (suc off) k xs hs)

pub Appends-trans :
    (buf len : ℕ) (xs ys : List ℕ) (a b c : Mem) (i j k : ℕ)
    → Appends buf len xs a i b j
    → Appends buf len ys b j c k
    → Appends buf len (xs ++ ys) a i c k
Appends-trans buf len xs ys a b c i j k p q =
    let size : k ≡ i + length (xs ++ ys) = omega (arith, p.count, q.count, length-append xs ys) in
    let (short, shorter) = length-take (len - 1 - i) xs in
    let first : Holds c (buf + i) (take (len - 1 - i) xs) =
      Holds-agree b c (buf + i) (take (len - 1 - i) xs)
        (λ x lo hi. q.frame x (inl (omega (arith, p.count, shorter)))) p.there in
    record {
      count = size;
      there = elim (Bool-cases (leb (length xs) (len - 1 - i))) [
        | inl room ↦
            let fits : length xs ≤ len - 1 - i = ground arith in
            let whole : take (len - 1 - i) xs ≡ xs = take_le (len - 1 - i) xs fits in
            let at : buf + i + length xs ≡ buf + j = omega (arith, p.count) in
            let left : len - 1 - i ≡ length xs + (len - 1 - j) = omega (arith, p.count) in
            rw (take-append-ge (len - 1 - i) (len - 1 - j) xs ys left) (
              Holds-append c (buf + i) (buf + j) xs (take (len - 1 - j) ys) at (rw whole at first)
                q.there)
        | inr full ↦ rw (take-append-le (len - 1 - i) xs ys (ground arith)) first
      ];
      frame = λ x out. elim out [
        | inl below ↦ q.frame x (inl (omega (arith, p.count))) ∙ p.frame x (inl below)
        | inr above ↦ q.frame x (inr above) ∙ p.frame x (inr above)
      ];
    }

pub min-length : (k : ℕ) (xs : List ℕ) → min (length xs) k ≡ length (take k xs)
min-length zero xs = omega arith
min-length (suc k) [] = omega arith
min-length (suc k) (x ∷ xs) = omega (arith, min-length k xs)

pub write_lem :
    (mem : Mem) (at : ℕ) (text : List ℕ)
    → Holds (write mem at text) at text
      × ((i : ℕ) → (i < at) ⊎ (at + length text ≤ i) → write mem at text i ≡ mem i)
unfolding write Holds
write_lem mem at [] = (tt, λ i out. refl)
write_lem mem at (c ∷ text) =
    let (rest, frame) = write_lem (poke mem at c) (at + 1) text in
    let p : at + 1 ≡ suc at = omega arith in
    (
      (
        frame at (inl (omega arith)) ∙ poke-at mem at c,
        subst (λ o. Holds (write (poke mem at c) (at + 1) text) o text) p rest,
      ),
      λ i out.
          frame i (elim out [ inl a ↦ inl (omega arith) | inr b ↦ inr (omega arith) ])
          ∙ poke-other mem at c i (elim out [ inl a ↦ ground arith | inr b ↦ ground arith ]),
    )

pub add_char-Appends :
    (mem : Mem) (buf len written c : ℕ)
    → Appends buf len
        (c ∷ [])
        mem
        written
        (add_char mem buf len written c).0
        (add_char mem buf len written c).1
unfolding add_char
add_char-Appends mem buf len written c = elim (Bool-cases (ltb written len)) [
  | inr full ↦
      let none_left : len - 1 - written ≡ 0 = ground arith in
      rw full (record {
        count = omega arith;
        there = rw none_left (unfold Holds in tt);
        frame = λ i out. refl;
      })
  | inl room ↦ rw room (record {
    count = omega arith;
    there =
        Holds-take (poke mem (buf + written) c) (buf + written) (len - 1 - written) (c ∷ [])
          (unfold Holds in (poke-at mem (buf + written) c, tt));
    frame = λ i out.
        poke-other mem (buf + written) c i
          (elim out [ inl a ↦ ground arith | inr b ↦ ground arith ]);
  })
]
