-- ===== src/AsPath/Segments.antt =====
-- The segments that the bytes of an AS path stand for, independently of the loops over them.
use bgpstream.Base.{
  ℕ, zero, suc, ◌+◌, ◌*◌, ◌/◌, ◌%◌, ◌^◌, ◌≤◌, ◌<◌, ◌≡◌, refl, sym, ap, ◌∙◌, false, List, [], ◌∷◌,
  ◌++◌, map, arith, ◌==◌, if◌then◌else◌, length, length-append, All,
}
use mathlib.Core.List.{append_assoc}
use bgpstream.AsPath.{AsPath, seg_asn, external, sizeof_seg, segs}
use bgpstream.AsPath.Memory.{Mem, word, Holds, Holds-split}

-- One AS number, or a set or sequence of a type.
pub data Segment : Type 0 where
  asn : ℕ → Segment
  group : ℕ → List ℕ → Segment

unfoldable pub IsSegment : Segment → Type 0
IsSegment (asn n) = n < 2 ^ 32
IsSegment (group kind ns) = (2 ≤ kind) × (kind ≤ 4) × (length ns < 256) × All (λ n. n < 2 ^ 32) ns

abbrev pub word_bytes : ℕ → List ℕ
word_bytes n = n % 256 ∷ (n / 256 % 256) ∷ (n / 65536 % 256) ∷ (n / 16777216 % 256) ∷ []

unfoldable pub words_bytes : List ℕ → List ℕ
words_bytes [] = []
words_bytes (n ∷ ns) = word_bytes n ++ words_bytes ns

unfoldable pub seg_bytes : Segment → List ℕ
seg_bytes (asn n) = seg_asn ∷ word_bytes n
seg_bytes (group kind ns) = kind ∷ length ns ∷ words_bytes ns

unfoldable pub path_bytes : List Segment → List ℕ
path_bytes [] = []
path_bytes (s ∷ ss) = seg_bytes s ++ path_bytes ss

-- The segment at an offset, read as the library's clients do.
unfoldable pub read_words : ℕ → Mem → ℕ → List ℕ
read_words zero mem off = []
read_words (suc k) mem off = word mem off ∷ read_words k mem (off + 4)

unfoldable pub read_seg : Mem → ℕ → Segment
read_seg mem off =
    if mem off == seg_asn
    then asn (word mem (off + 1))
    else group (mem off) (read_words (mem (off + 1)) mem (off + 2))

-- What a client's loop over the path reads.
abbrev pub segments : AsPath → List Segment
segments path = map (read_seg path.data_bytes) (segs path)

unfoldable pub seg_size : Segment → ℕ
seg_size s = length (seg_bytes s)

unfoldable pub path_size : List Segment → ℕ
path_size [] = 0
path_size (s ∷ ss) = seg_size s + path_size ss

unfoldable pub offsets : ℕ → List Segment → List ℕ
offsets off [] = []
offsets off (s ∷ ss) = off ∷ offsets (off + seg_size s) ss

-- The offset of the last segment, or `old` where there is none.
unfoldable pub last_offset : ℕ → List Segment → ℕ → ℕ
last_offset off [] old = old
last_offset off (s ∷ ss) old = last_offset (off + seg_size s) ss off

-- The path has these segments, and its fields say so.
pub record IsPath (path : AsPath) (ss : List Segment) : Type 0 where
  pub bytes_of : Holds path.data_bytes 0 (path_bytes ss)
  pub len : path.data_len ≡ path_size ss
  pub short : path_size ss < 2 ^ 16
  pub fits : All IsSegment ss
  pub cnt : path.seg_cnt ≡ length ss
  pub origin : path.origin_offset ≡ last_offset 0 ss external

pub length-words_bytes : (ns : List ℕ) → length (words_bytes ns) ≡ 4 * length ns
unfolding words_bytes
length-words_bytes [] = refl
length-words_bytes (n ∷ ns) = omega (arith, length-words_bytes ns)

pub length-path_bytes : (ss : List Segment) → length (path_bytes ss) ≡ path_size ss
unfolding path_bytes path_size seg_size
length-path_bytes [] = refl
length-path_bytes (s ∷ ss) =
    omega (arith, length-append (seg_bytes s) (path_bytes ss), length-path_bytes ss)

pub path_size-append : (ss ts : List Segment) → path_size (ss ++ ts) ≡ path_size ss + path_size ts
unfolding path_size
path_size-append [] ts = omega arith
path_size-append (s ∷ ss) ts = omega (arith, path_size-append ss ts)

pub path_bytes-append :
    (ss ts : List Segment) → path_bytes (ss ++ ts) ≡ path_bytes ss ++ path_bytes ts
unfolding path_bytes
path_bytes-append [] ts = refl
path_bytes-append (s ∷ ss) ts =
    ap (λ t. seg_bytes s ++ t) (path_bytes-append ss ts)
    ∙ sym (append_assoc (seg_bytes s) (path_bytes ss) (path_bytes ts))

pub last_offset-append :
    (off : ℕ) (ss ts : List Segment) (old : ℕ)
    → last_offset off (ss ++ ts) old ≡ last_offset (off + path_size ss) ts (last_offset off ss old)
unfolding last_offset path_size
last_offset-append off [] ts old = ap (λ o. last_offset o ts old) (omega arith)
last_offset-append off (s ∷ ss) ts old =
    last_offset-append (off + seg_size s) ss ts off
    ∙ ap (λ o. last_offset o ts (last_offset (off + seg_size s) ss off)) (omega arith)

pub word-Holds :
    (mem : Mem) (off n : ℕ) → n < 2 ^ 32 → Holds mem off (word_bytes n) → word mem off ≡ n
unfolding word Holds
word-Holds mem off n h (a, (b, (c, (d, _)))) =
    let p : suc off ≡ off + 1 = omega arith in
    let q : suc (suc off) ≡ off + 2 = omega arith in
    let r : suc (suc (suc off)) ≡ off + 3 = omega arith in
    omega (arith, rw p at b, rw q at c, rw r at d)

read_words-Holds :
    (mem : Mem) (off : ℕ) (ns : List ℕ)
    → All (λ n. n < 2 ^ 32) ns
    → Holds mem off (words_bytes ns)
    → read_words (length ns) mem off ≡ ns
unfolding read_words words_bytes
read_words-Holds mem off [] a h = refl
read_words-Holds mem off (n ∷ ns) (a, as') h =
    let (own, rest) = Holds-split mem off (off + 4) (word_bytes n) (words_bytes ns) refl h in
    rw (word-Holds mem off n a own, read_words-Holds mem (off + 4) ns as' rest) refl

pub read_seg-Holds :
    (mem : Mem) (off : ℕ) (s : Segment)
    → IsSegment s
    → Holds mem off (seg_bytes s)
    → (read_seg mem off ≡ s) × (sizeof_seg mem off ≡ seg_size s)
unfolding read_seg sizeof_seg seg_size seg_bytes IsSegment Holds
read_seg-Holds mem off (asn n) i (h, hs) =
    let p : suc off ≡ off + 1 = omega arith in
    let e = word-Holds mem (suc off) n i hs in (rw (h, ← p, e) refl, rw h refl)
read_seg-Holds mem off (group kind ns) (lo, hi, cnt, i) (h, (c, hs)) =
    let p : suc off ≡ off + 1 = omega arith in
    let q : suc (suc off) ≡ off + 2 = omega arith in
    let other : (kind == seg_asn) ≡ false = ground arith in
    let e = read_words-Holds mem (suc (suc off)) ns i hs in
    (
      rw (h, other, ← p, ← q, c, e) refl,
      rw (h, other, ← p, c) (omega (arith, length-words_bytes ns)),
    )
