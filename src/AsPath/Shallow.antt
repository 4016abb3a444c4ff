-- ===== src/AsPath/Shallow.antt =====
-- lib/utils/bgpstream_utils_as_path_store.c: a path as the store keeps it, without the segment of the
-- peer where it begins with one.
use bgpstream.Base.{
  ℕ, zero, suc, ◌+◌, ◌-◌, ◌%◌, ◌^◌, ◌≤◌, ◌<◌, ◌≡◌, inl, inr, refl, sym, ap, ◌∙◌, true, false, List,
  [], ◌∷◌, ◌++◌, arith, ◌==◌, length, Bool-cases,
}
use bgpstream.AsPath.{AsPath, external, equal}
use bgpstream.AsPath.Memory.{Mem, word, same_bytes, Holds, Holds-agree, Holds-split, Holds-shift}
use bgpstream.AsPath.Segments.{
  Segment, asn, group, IsSegment, seg_bytes, path_bytes, seg_size, path_size, last_offset, IsPath,
  length-path_bytes, word-Holds,
}
use bgpstream.AsPath.Walked.{segments_lem, segs-offsets, read-offsets}
use bgpstream.AsPath.Store.{StorePath, peer_prepended, shallow}

same_bytes_iff : (a b : Mem) (n : ℕ) → same_bytes a b n ≡ true → (i : ℕ) → i < n → a i ≡ b i
unfolding same_bytes
same_bytes_iff a b zero e i lt = absurd (omega arith)
same_bytes_iff a b (suc n) e i lt = elim (Bool-cases (same_bytes a b n)) [
  | inl rest ↦ elim (Bool-cases (i == n)) [
    | inl last ↦ let at : i ≡ n = ground arith in let own : a n ≡ b n = ground arith in rw at own
    | inr below ↦ same_bytes_iff a b n rest i (ground arith)
  ]
  | inr wrong ↦ absurd (cc (rw wrong at e))
]

same_bytes-true : (a b : Mem) (n : ℕ) → ((i : ℕ) → i < n → a i ≡ b i) → same_bytes a b n ≡ true
unfolding same_bytes
same_bytes-true a b zero h = refl
same_bytes-true a b (suc n) h =
    let own = h n (omega arith) in
    rw (same_bytes-true a b n (λ i lt. h i (omega arith))) (ground arith)

Holds-same :
    (a b : Mem) (off : ℕ) (bs : List ℕ)
    → Holds a off bs
    → Holds b off bs
    → (i : ℕ) → off ≤ i
    → i < off + length bs
    → a i ≡ b i
unfolding Holds
Holds-same a b off [] h k i lo hi = absurd (omega arith)
Holds-same a b off (x ∷ bs) (h, hs) (k, ks) i lo hi = elim (Bool-cases (i == off)) [
  | inl at ↦ let e : i ≡ off = ground arith in rw e (cc (h, k))
  | inr other ↦ Holds-same a b (suc off) bs hs ks i (ground arith) (omega arith)
]

-- Two paths with the same segments are equal, and the other way round.
pub IsPath-equal : (p q : AsPath) (ss : List Segment) → IsPath p ss → IsPath q ss → equal p q ≡ true
unfolding equal
IsPath-equal p q ss a b =
    let same : (p.data_len == q.data_len) ≡ true = ground (arith, a.len, b.len) in
    rw same (
      same_bytes-true p.data_bytes q.data_bytes p.data_len (λ i lt.
        Holds-same p.data_bytes q.data_bytes 0 (path_bytes ss) a.bytes_of b.bytes_of i (omega arith)
          (omega (arith, a.len, length-path_bytes ss))))

pub equal-segments :
    (p q : AsPath) (ss ts : List Segment) → IsPath p ss → IsPath q ts → equal p q ≡ true → ss ≡ ts
unfolding equal
equal-segments p q ss ts a b e =
    let len : p.data_len ≡ q.data_len = ground arith in
    let bytes : same_bytes p.data_bytes q.data_bytes p.data_len ≡ true = ground arith in
    let there =
      Holds-agree q.data_bytes p.data_bytes 0 (path_bytes ts)
        (λ i lo hi.
          same_bytes_iff p.data_bytes q.data_bytes p.data_len bytes i
            (omega (arith, b.len, length-path_bytes ts)))
        b.bytes_of in
    sym (segments_lem p ss a)
    ∙ rw (segs-offsets p ts there (omega (arith, b.len)) b.short b.fits)
        (read-offsets ts p 0 there b.fits)

last_offset_old :
    (off : ℕ) (s : Segment) (ss : List Segment) (a b : ℕ)
    → last_offset off (s ∷ ss) a ≡ last_offset off (s ∷ ss) b
unfolding last_offset
last_offset_old off s ss a b = refl

last_offset_shift :
    (k off : ℕ) (ss : List Segment) (old : ℕ)
    → last_offset (off + k) ss (old + k) ≡ last_offset off ss old + k
unfolding last_offset
last_offset_shift k off [] old = refl
last_offset_shift k off (s ∷ ss) old =
    let e : off + k + seg_size s ≡ off + seg_size s + k = omega arith in
    ap (λ o. last_offset o ss (off + k)) e ∙ last_offset_shift k (off + seg_size s) ss off

last_offset-lt :
    (off : ℕ) (ss : List Segment) (old : ℕ)
    → old ≤ off
    → last_offset off ss old ≤ off + path_size ss
unfolding last_offset path_size
last_offset-lt off [] old h = omega arith
last_offset-lt off (s ∷ ss) old h =
    omega (arith, last_offset-lt (off + seg_size s) ss off (omega arith))

last_offset_first :
    (n : ℕ) (s : Segment) (ss : List Segment) (old : ℕ)
    → last_offset 0 (asn n ∷ s ∷ ss) old ≡ last_offset 0 (s ∷ ss) 0 + 5
unfolding last_offset seg_size seg_bytes
last_offset_first n s ss old = last_offset_shift 5 0 (s ∷ ss) 0

-- How the store keeps a path: as it is, or without the AS number of the peer that it begins with.
pub data Kept (peer : ℕ) (ss : List Segment) (sp : StorePath) : Type 0 where
  whole : sp.is_core ≡ false → IsPath sp.path ss → Kept peer ss sp
  core :
      (cs : List Segment)
      → ss ≡ asn peer ∷ cs
      → peer < 2 ^ 32
      → sp.is_core ≡ true
      → IsPath sp.path cs
      → Kept peer ss sp

tail-IsPath :
    (path : AsPath) (n : ℕ) (s : Segment) (cs : List Segment)
    → IsPath path (asn n ∷ s ∷ cs)
    → IsPath
        (record {
          data_bytes = λ i. path.data_bytes (i + 5);
          data_len = path.data_len - 5;
          data_alloc_len = external;
          seg_cnt = path.seg_cnt - 1;
          origin_offset = (path.origin_offset + 2 ^ 16 - 5) % 2 ^ 16;
        })
        (s ∷ cs)
tail-IsPath path n s cs p =
    let five : seg_size (asn n) ≡ 5 = unfold seg_size seg_bytes in refl in
    let total : path_size (asn n ∷ s ∷ cs) ≡ 5 + path_size (s ∷ cs) =
      unfold path_size in omega (arith, five) in
    let split : path_bytes (asn n ∷ s ∷ cs) ≡ seg_bytes (asn n) ++ path_bytes (s ∷ cs) =
      unfold path_bytes in refl in
    let (own, rest) =
      Holds-split path.data_bytes 0 5 (seg_bytes (asn n)) (path_bytes (s ∷ cs))
        (unfold seg_bytes in refl) (rw split at p.bytes_of) in
    let first : last_offset 0 (asn n ∷ s ∷ cs) external ≡ last_offset 0 (s ∷ cs) 0 + 5 =
      last_offset_first n s cs external in
    let origin : path.origin_offset ≡ last_offset 0 (s ∷ cs) external + 5 =
      p.origin ∙ first ∙ ap (λ o. o + 5) (last_offset_old 0 s cs 0 external) in
    let bound : last_offset 0 (s ∷ cs) external ≤ path_size (s ∷ cs) =
      rw (last_offset_old 0 s cs external 0)
        (omega (arith, last_offset-lt 0 (s ∷ cs) 0 (omega arith))) in
    record {
      bytes_of =
          Holds-shift path.data_bytes _ 5 0 (path_bytes (s ∷ cs))
            (λ i lt. ap path.data_bytes (omega arith)) rest;
      len = omega (arith, p.len, total);
      short = omega (arith, p.short, total);
      fits = p.fits.1;
      cnt = omega (arith, p.cnt);
      origin = omega (arith, origin, bound, p.short, total);
    }

peer_prepended_shape :
    (path : AsPath) (peer : ℕ) (ss : List Segment)
    → IsPath path ss
    → peer_prepended path peer ≡ true
    → (s : Segment) × (cs : List Segment) × (ss ≡ asn peer ∷ s ∷ cs) × (peer < 2 ^ 32)
unfolding peer_prepended Holds path_bytes seg_bytes IsSegment
peer_prepended_shape path peer [] p e = absurd (ground (arith, p.cnt))
peer_prepended_shape path peer (asn n ∷ []) p e = absurd (ground (arith, p.cnt))
peer_prepended_shape path peer (asn n ∷ s ∷ cs) p e =
    let (own, rest) =
      Holds-split path.data_bytes 0 5 (seg_bytes (asn n)) (path_bytes (s ∷ cs)) refl p.bytes_of in
    let (_, at) = own in
    let bound : n < 2 ^ 32 = p.fits.0 in
    let same : word path.data_bytes 1 ≡ n = word-Holds path.data_bytes 1 n bound at in
    let peer_is : n ≡ peer = ground arith in (s, cs, ap (λ m. asn m ∷ s ∷ cs) peer_is, omega arith)
peer_prepended_shape path peer (group kind ns ∷ cs) p e =
    let (first, _) = p.bytes_of in let (lo, _, _, _) = p.fits.0 in absurd (ground arith)

pub shallow-Kept :
    (path : AsPath) (peer : ℕ) (ss : List Segment)
    → IsPath path ss
    → Kept peer ss (shallow path peer)
unfolding shallow
shallow-Kept path peer ss p = elim (Bool-cases (peer_prepended path peer)) [
  | inl prepended ↦
      let (s, cs, e, bound) = peer_prepended_shape path peer ss p prepended in
      rw prepended (core (s ∷ cs) e bound refl (tail-IsPath path peer s cs (rw e at p)))
  | inr other ↦ rw other (whole refl p)
]
