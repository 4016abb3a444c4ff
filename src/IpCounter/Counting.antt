-- ===== src/IpCounter/Counting.antt =====
-- The loops of get_ipcount and of is_overlapping4 count the addresses that the intervals cover.
use bgpstream.Base.Count.{count_from, count_from-ext, count_from-none}
use bgpstream.Base.{
  ℕ, zero, suc, ◌+◌, ◌-◌, ◌%◌, ◌^◌, ◌≤◌, ◌<◌, ◌≡◌, refl, ap, ◌∙◌, Bool, true, false, ◌&&◌, ◌||◌,
  List, [], ◌∷◌, arith, ltb, leb, or_rotate, leb→le, inl, inr, if◌then◌else◌, Bool-cases, All, min,
  ◌==◌,
}
use Prim.Native.Nat.{max}
use bgpstream.IpCounter.{V4Int, size32, ipcount4_loop, overlap4_loop}
use bgpstream.IpCounter.Covers.{in_range, covers, IsAscending, covers-below}

-- Disjoint tests are counted one by one.
count_from-or :
    (b k : ℕ) (f g : ℕ → Bool)
    → ((x : ℕ) → f x ≡ true → g x ≡ false)
    → count_from b k (λ x. f x || g x) ≡ count_from b k f + count_from b k g
unfolding count_from
count_from-or b zero f g h = refl
count_from-or b (suc k) f g h = ground (arith, h b, count_from-or (suc b) k f g h)

-- The part of an interval that lies in a range.
pub count_from-in_range :
    (b k lo hi : ℕ) → count_from b k (in_range lo hi) ≡ min (suc hi) (b + k) - max lo b
unfolding count_from
count_from-in_range b zero lo hi = omega arith
count_from-in_range b (suc k) lo hi = ground (arith, count_from-in_range (suc b) k lo hi)

pub count_from-covers-cons :
    (b k : ℕ) (i : V4Int) (l : List V4Int)
    → IsAscending (suc i.end) l
    → count_from b k (covers (i ∷ l))
      ≡ (min (suc i.end) (b + k) - max i.start b) + count_from b k (covers l)
unfolding covers
count_from-covers-cons b k i l h =
    count_from-or b k (in_range i.start i.end) (covers l)
      (λ x e. covers-below (suc i.end) x l h (ground arith))
    ∙ ap (λ (t : ℕ). t + count_from b k (covers l)) (count_from-in_range b k i.start i.end)

pub count_from-covers-nil : (b k : ℕ) → count_from b k (covers []) ≡ 0
unfolding covers
count_from-covers-nil b k = count_from-none b k

pub count_from-le : (b k : ℕ) (f : ℕ → Bool) → count_from b k f ≤ k
unfolding count_from
count_from-le b zero f = omega arith
count_from-le b (suc k) f = ground (arith, count_from-le (suc b) k f)

-- An interval of 32-bit addresses that is not the whole space.
abbrev pub IsPartial : V4Int → Type 0
IsPartial i = (i.end < 2 ^ 32) × (i.end - i.start < 2 ^ 32 - 1)

pub ipcount4_loop_lem :
    (l : List V4Int) (b n : ℕ)
    → IsAscending b l
    → All IsPartial l
    → n + count_from 0 (2 ^ 32) (covers l) < 2 ^ 64
    → ipcount4_loop l n ≡ n + count_from 0 (2 ^ 32) (covers l)
unfolding ipcount4_loop
ipcount4_loop_lem [] b n h p q = omega (arith, count_from-covers-nil 0 (2 ^ 32))
ipcount4_loop_lem (i ∷ l) b n h p q =
    let c : count_from 0 (2 ^ 32) (covers (i ∷ l))
        ≡ (min (suc i.end) (0 + 2 ^ 32) - max i.start 0) + count_from 0 (2 ^ 32) (covers l) =
      count_from-covers-cons 0 (2 ^ 32) i l h.2 in
    let e : (n + size32 i.start i.end) % 2 ^ 64 ≡ n + (suc i.end - i.start) = omega arith in
    rw e (
      omega
        (arith, ipcount4_loop_lem l (suc i.end) (n + (suc i.end - i.start)) h.2 p.1 (omega arith)))

count_from-beyond :
    (b s k : ℕ) (l : List V4Int) → IsAscending b l → s + k ≤ b → count_from s k (covers l) ≡ 0
count_from-beyond b s k l h p =
    count_from-ext s k (covers l) (λ _. false) (λ x q r. covers-below b x l h (omega arith))
    ∙ count_from-none s k

-- Some interval holds the whole range.
pub contains : List V4Int → ℕ → ℕ → Bool
contains [] start end = false
contains (i ∷ l) start end = (leb i.start start && leb end i.end) || contains l start end

contains-beyond :
    (b start end : ℕ) (l : List V4Int) → IsAscending b l → start < b → contains l start end ≡ false
unfolding contains
contains-beyond b start end [] h p = refl
contains-beyond b start end (i ∷ l) h p =
    ground (arith, contains-beyond (suc i.end) start end l h.2)

abbrev pub overlap : List V4Int → ℕ → ℕ → ℕ
overlap l start end = count_from start (suc end - start) (covers l)

-- The part of an interval that meets the range, as the loop measures it.
abbrev int_start : V4Int → ℕ → ℕ
int_start i start = if ltb i.start start then start else i.start

abbrev int_end : V4Int → ℕ → ℕ
int_end i end = if ltb end i.end then end else i.end

module _ (i : V4Int) (start end : ℕ) (h : i.start ≤ i.end) (p : start ≤ end) (q : end < 2 ^ 32)
    (r : end - start < 2 ^ 32 - 1) (left : ltb end i.start ≡ false)
    (right : ltb i.end start ≡ false) where
  size32-part :
      size32 (int_start i start) (int_end i end)
      ≡ min (suc i.end) (start + (suc end - start)) - max i.start start
  size32-part = ground arith

  size32-whole :
      (size32 (int_start i start) (int_end i end) == size32 start end)
      ≡ (leb i.start start && leb end i.end)
  size32-whole = ground arith

pub overlap4_loop_lem :
    (l : List V4Int) (b start end n : ℕ) (found : Bool)
    → IsAscending b l
    → start ≤ end
    → end < 2 ^ 32
    → end - start < 2 ^ 32 - 1
    → n + overlap l start end < 2 ^ 32
    → ((overlap4_loop l start end n found).0 ≡ n + overlap l start end)
      × ((overlap4_loop l start end n found).1 ≡ (contains l start end || found))
unfolding overlap4_loop contains
overlap4_loop_lem [] b start end n found h p q r s =
    (omega (arith, count_from-covers-nil start (suc end - start)), refl)
overlap4_loop_lem (i ∷ l) b start end n found h p q r s =
    let c : overlap (i ∷ l) start end
        ≡ (min (suc i.end) (start + (suc end - start)) - max i.start start) + overlap l start end =
      count_from-covers-cons start (suc end - start) i l h.2 in
    elim (Bool-cases (ltb end i.start)) [
      | inl past ↦ rw past (
          (
            omega (
              arith,
              leb→le (suc end) i.start (ground arith),
              count_from-beyond (suc i.end) start (suc end - start) l h.2 (ground arith),
            ),
            ground (arith, contains-beyond (suc i.end) start end l h.2),
          ))
      | inr left ↦ rw left (elim (Bool-cases (ltb i.end start)) [
        | inl behind ↦
            let ih = overlap4_loop_lem l (suc i.end) start end n found h.2 p q r (omega arith) in
            rw behind
              (omega (arith, ih.0, leb→le (suc i.end) start (ground arith)), ground (arith, ih.1))
        | inr right ↦
            let m = min (suc i.end) (start + (suc end - start)) - max i.start start in
            let counted : (n + size32 (int_start i start) (int_end i end)) % 2 ^ 32 ≡ n + m =
              omega (arith, size32-part i start end h.1 p q r left right) in
            let here = leb i.start start && leb end i.end in
            let ih =
              overlap4_loop_lem l (suc i.end) start end (n + m) (here || found) h.2 p q r
                (omega arith) in
            rw (right, counted, size32-whole i start end h.1 p q r left right)
              (omega (arith, ih.0), ih.1 ∙ or_rotate here (contains l start end) found)
      ])
    ]
