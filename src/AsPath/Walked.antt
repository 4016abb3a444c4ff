-- ===== src/AsPath/Walked.antt =====
-- lib/utils/bgpstream_utils_as_path.c: the loops of get_next_seg see the segments of the path, one
-- after the other, and update_fields counts them.
use bgpstream.Base.{
  ℕ, zero, suc, ◌+◌, ◌*◌, ◌%◌, ◌^◌, ◌≤◌, ◌<◌, ◌≡◌, refl, ap, ◌∙◌, false, none, some, List, [], ◌∷◌,
  map, arith, leb, ◌==◌, length, All,
}
use bgpstream.AsPath.{
  AsPath, external, sizeof_seg, get_next_seg, walk_segs, segs, count_segs, update_fields,
}
use bgpstream.AsPath.Memory.{Holds, Holds-split}
use bgpstream.AsPath.Segments.{
  Segment, asn, group, IsSegment, seg_bytes, path_bytes, read_seg, segments, seg_size, path_size,
  offsets, last_offset, IsPath, read_seg-Holds,
}

pub seg_size_ge : (s : Segment) → 2 ≤ seg_size s
unfolding seg_size seg_bytes
seg_size_ge (asn n) = omega arith
seg_size_ge (group kind ns) = omega arith

pub length-le-path_size : (ss : List Segment) → 2 * length ss ≤ path_size ss
unfolding path_size
length-le-path_size [] = omega arith
length-le-path_size (s ∷ ss) = omega (arith, seg_size_ge s, length-le-path_size ss)

next-at :
    (path : AsPath) (off size : ℕ)
    → sizeof_seg path.data_bytes off ≡ size
    → off < path.data_len
    → off + size < 2 ^ 16
    → get_next_seg path off ≡ (some off, off + size)
unfolding get_next_seg
next-at path off size e p q =
    let first : (path.data_len == 0) ≡ false = ground arith in
    let more : leb path.data_len off ≡ false = ground arith in
    rw (first, more, e) (ap (λ o. (some off, o)) (omega arith))

next-end : (path : AsPath) → get_next_seg path path.data_len ≡ (none, path.data_len)
unfolding get_next_seg
next-end path = ground arith

walk_segs-some :
    (turns : ℕ) (path : AsPath) (off seg next : ℕ)
    → get_next_seg path off ≡ (some seg, next)
    → walk_segs (suc turns) path off ≡ seg ∷ walk_segs turns path next
unfolding walk_segs
walk_segs-some turns path off seg next e =
    rw (walk_segs, e) (ap (λ r. seg ∷ walk_segs turns path r.1) e)

-- From the offset of a segment on.
walk_segs-offsets :
    (ss : List Segment) (turns : ℕ) (path : AsPath) (off : ℕ)
    → Holds path.data_bytes off (path_bytes ss)
    → All IsSegment ss
    → off + path_size ss ≡ path.data_len
    → path.data_len < 2 ^ 16
    → length ss < turns
    → walk_segs turns path off ≡ offsets off ss
unfolding walk_segs offsets path_bytes path_size
walk_segs-offsets ss zero path off h i e b t = absurd (omega arith)
walk_segs-offsets [] (suc turns) path off h i e b t =
    let at : off ≡ path.data_len = omega arith in rw (at, walk_segs, next-end path) refl
walk_segs-offsets (s ∷ ss) (suc turns) path off h (i, is) e b t =
    let (own, rest) =
      Holds-split path.data_bytes off (off + seg_size s) (seg_bytes s) (path_bytes ss)
        (unfold seg_size in refl) h in
    let (_, size) = read_seg-Holds path.data_bytes off s i own in
    let at = next-at path off (seg_size s) size (omega (arith, seg_size_ge s)) (omega arith) in
    let ih =
      walk_segs-offsets ss turns path (off + seg_size s) rest is (omega arith) b (omega arith) in
    walk_segs-some turns path off off (off + seg_size s) at ∙ ap (λ l. off ∷ l) ih

pub read-offsets :
    (ss : List Segment) (path : AsPath) (off : ℕ)
    → Holds path.data_bytes off (path_bytes ss)
    → All IsSegment ss
    → map (read_seg path.data_bytes) (offsets off ss) ≡ ss
unfolding offsets path_bytes
read-offsets [] path off h i = refl
read-offsets (s ∷ ss) path off h (i, is) =
    let (own, rest) =
      Holds-split path.data_bytes off (off + seg_size s) (seg_bytes s) (path_bytes ss)
        (unfold seg_size in refl) h in
    let (same, _) = read_seg-Holds path.data_bytes off s i own in
    rw (same, read-offsets ss path (off + seg_size s) rest is) refl

pub segs-offsets :
    (path : AsPath) (ss : List Segment)
    → Holds path.data_bytes 0 (path_bytes ss)
    → path.data_len ≡ path_size ss
    → path_size ss < 2 ^ 16
    → All IsSegment ss
    → segs path ≡ offsets 0 ss
segs-offsets path ss h e b i =
    walk_segs-offsets ss (suc path.data_len) path 0 h i (omega arith) (omega arith)
      (omega (arith, length-le-path_size ss))

-- A client's loop reads the segments of the path.
pub segments_lem : (path : AsPath) (ss : List Segment) → IsPath path ss → segments path ≡ ss
segments_lem path ss p =
    rw (segs-offsets path ss p.bytes_of p.len p.short p.fits)
      (read-offsets ss path 0 p.bytes_of p.fits)

count_segs_lem :
    (ss : List Segment) (off : ℕ) (path : AsPath)
    → Holds path.data_bytes off (path_bytes ss)
    → All IsSegment ss
    → off + path_size ss < 2 ^ 16
    → path.seg_cnt + length ss < 2 ^ 16
    → count_segs (offsets off ss) off path ≡ record path {
      seg_cnt = path.seg_cnt + length ss;
      origin_offset = last_offset off ss path.origin_offset;
    }
unfolding count_segs offsets path_bytes path_size last_offset
count_segs_lem [] off path h i b c = ap (λ k. record path { seg_cnt = k }) (omega arith)
count_segs_lem (s ∷ ss) off path h (i, is) b c =
    let (own, rest) =
      Holds-split path.data_bytes off (off + seg_size s) (seg_bytes s) (path_bytes ss)
        (unfold seg_size in refl) h in
    let (_, size) = read_seg-Holds path.data_bytes off s i own in
    let next : (off + sizeof_seg path.data_bytes off) % 2 ^ 16 ≡ off + seg_size s =
      omega (arith, size) in
    let count : (path.seg_cnt + 1) % 2 ^ 16 ≡ path.seg_cnt + 1 = omega arith in
    let rest_of : ℕ → ℕ → AsPath = λ o k.
      count_segs (offsets (off + seg_size s) ss) o
        (record path { origin_offset = off; seg_cnt = k }) in
    ap (λ o. rest_of o ((path.seg_cnt + 1) % 2 ^ 16)) next
    ∙ ap (rest_of (off + seg_size s)) count
    ∙ count_segs_lem ss (off + seg_size s)
        (record path { origin_offset = off; seg_cnt = path.seg_cnt + 1 }) rest is (omega arith)
        (omega arith)
    ∙ ap (λ k. record path { seg_cnt = k; origin_offset = last_offset (off + seg_size s) ss off })
        (omega arith)

-- update_fields makes the fields say what the bytes are.
pub update_fields-IsPath :
    (path : AsPath) (ss : List Segment)
    → Holds path.data_bytes 0 (path_bytes ss)
    → path.data_len ≡ path_size ss
    → path_size ss < 2 ^ 16
    → All IsSegment ss
    → path.origin_offset ≡ external
    → IsPath (update_fields path) ss × ((update_fields path).data_alloc_len ≡ path.data_alloc_len)
unfolding update_fields
update_fields-IsPath path ss h e b i o =
    let p : AsPath = record path { seg_cnt = 0 } in
    let counted = count_segs_lem ss 0 p h i (omega arith) (omega (arith, length-le-path_size ss)) in
    rw (segs-offsets path ss h e b i, counted, o)
      (
        record { bytes_of = h; len = e; short = b; fits = i; cnt = omega arith; origin = refl },
        refl,
      )
