-- ===== src/AsPath/Printed.antt =====
-- lib/utils/bgpstream_utils_as_path.c: what is printed of a path, and where in the buffer.
use mathlib.Core.List.{append-nil}
use mathlib.Core.Path.{subst}
use bgpstream.Base.{
  ℕ, min, ◌+◌, ◌-◌, ◌≤◌, ◌<◌, ◌≡◌, ◌⊎◌, inl, inr, sym, ap, ◌∙◌, true, false, List, [], ◌∷◌, ◌++◌,
  map, arith, leb, ◌==◌, length, take, Bool-cases,
}
use bgpstream.AsPath.{AsPath, segs}
use bgpstream.AsPath.Memory.{Mem, poke, Holds, poke-at}
use bgpstream.AsPath.Segments.{Segment, read_seg, segments}
use bgpstream.AsPath.Print.{
  add_char, remain, seg_snprintf, path_snprintf_loop, snprintf_custom_separator,
}
use bgpstream.AsPath.Appends.{Appends, Appends-trans, min-length, add_char-Appends}
use bgpstream.AsPath.SegPrinted.{
  IsEnded, Appends-at, Appends-nil, remain_lem, poke-Appends, seg_text, seg_snprintf-Appends,
}

-- The texts of the segments with the separator between them.
unfoldable pub joined : ℕ → List Segment → List ℕ
joined sep [] = []
joined sep (s ∷ []) = seg_text s
joined sep (s ∷ t ∷ ss) = seg_text s ++ (sep ∷ joined sep (t ∷ ss))

-- What follows a segment.
continued : ℕ → List Segment → List ℕ
continued sep [] = []
continued sep (s ∷ ss) = (sep ∷ []) ++ (seg_text s ++ continued sep ss)

joined-continued :
    (sep : ℕ) (s : Segment) (ss : List Segment)
    → joined sep (s ∷ ss) ≡ seg_text s ++ continued sep ss
unfolding joined continued
joined-continued sep s [] = sym (append-nil (seg_text s))
joined-continued sep s (t ∷ ss) = ap (λ l. seg_text s ++ (sep ∷ l)) (joined-continued sep t ss)

IsEnded-at :
    (buf len from : ℕ) (mem : Mem) (size : ℕ)
    → IsEnded (buf + from) (len - from) mem size
    → from + size < len
    → mem (buf + (from + size)) ≡ 0
unfolding IsEnded
IsEnded-at buf len from mem size ended lt =
    let e : buf + (from + size) ≡ buf + from + min size (len - from - 1) = omega arith in
    ap mem e ∙ ended (omega arith)

-- One segment of the path.
path_seg-Closed :
    (bytes : Mem) (seg : ℕ) (mem : Mem) (buf len written : ℕ)
    → let done = seg_snprintf bytes seg mem (buf + written) (remain len written) in
      Appends buf len (seg_text (read_seg bytes seg)) mem written done.0 (written + done.1)
      × (written + done.1 < len → done.0 (buf + (written + done.1)) ≡ 0)
path_seg-Closed bytes seg mem buf len written =
    let (p, ended) = seg_snprintf-Appends bytes seg mem (buf + written) (len - written) in
    rw (remain_lem len written) (
      Appends-at buf len (seg_text (read_seg bytes seg)) mem written _ _ p,
      IsEnded-at buf len written _ _ ended,
    )

path_loop-Closed :
    (offs : List ℕ) (bytes mem : Mem) (buf len written sep : ℕ)
    → let done = path_snprintf_loop offs true bytes mem buf len written sep in
      Appends buf len (continued sep (map (read_seg bytes) offs)) mem written done.0 done.1
      × ((written < len → mem (buf + written) ≡ 0) → done.1 < len → done.0 (buf + done.1) ≡ 0)
unfolding path_snprintf_loop continued
path_loop-Closed [] bytes mem buf len written sep = (Appends-nil buf len mem written, λ h. h)
path_loop-Closed (seg ∷ rest) bytes mem buf len written sep =
    let (mem1, written1) = add_char mem buf len written sep in
    let (mem2, size) = seg_snprintf bytes seg mem1 (buf + written1) (remain len written1) in
    let one = add_char-Appends mem buf len written sep in
    let (two, closed) = path_seg-Closed bytes seg mem1 buf len written1 in
    let (three, ended) = path_loop-Closed rest bytes mem2 buf len (written1 + size) sep in
    (
      Appends-trans buf len (sep ∷ []) _ mem mem1 _ written written1 _ one
          (Appends-trans buf len _ _ mem1 mem2 _ written1 (written1 + size) _ two three),
      λ h. ended closed,
    )

path-Closed :
    (offs : List ℕ) (bytes mem : Mem) (buf len sep : ℕ)
    → let done = path_snprintf_loop offs false bytes mem buf len 0 sep in
      Appends buf len (joined sep (map (read_seg bytes) offs)) mem 0 done.0 done.1
      × (0 < done.1 → done.1 < len → done.0 (buf + done.1) ≡ 0)
unfolding path_snprintf_loop
path-Closed [] bytes mem buf len sep =
    (unfold joined in Appends-nil buf len mem 0, λ pos. absurd (omega arith))
path-Closed (seg ∷ rest) bytes mem buf len sep =
    let (mem2, size) = seg_snprintf bytes seg mem (buf + 0) (remain len 0) in
    let (one, closed) = path_seg-Closed bytes seg mem buf len 0 in
    let (two, ended) = path_loop-Closed rest bytes mem2 buf len (0 + size) sep in
    (
      rw (joined-continued sep (read_seg bytes seg) (map (read_seg bytes) rest))
          (Appends-trans buf len _ _ mem mem2 _ 0 (0 + size) _ one two),
      λ pos. ended closed,
    )

printed_of :
    (buf len : ℕ) (text : List ℕ) (mem mem' : Mem) (to : ℕ)
    → Appends buf len text mem 0 mem' to
    → IsEnded buf len mem' to
    → (to ≡ length text)
      × Holds mem' buf (take (len - 1) text)
      × (0 < len → mem' (buf + length (take (len - 1) text)) ≡ 0)
      × ((i : ℕ) → (i < buf) ⊎ (buf + len ≤ i) → mem' i ≡ mem i)
unfolding IsEnded
printed_of buf len text mem mem' to p ended =
    let size : to ≡ length text = omega (arith, p.count) in
    let e : buf + 0 ≡ buf = omega arith in
    let k : len - 1 - 0 ≡ len - 1 = omega arith in
    let shown : min to (len - 1) ≡ length (take (len - 1) text) =
      rw size (min-length (len - 1) text) in
    (
      size,
      subst (λ o. Holds mem' o (take (len - 1) text)) e
          (subst (λ j. Holds mem' (buf + 0) (take j text)) k p.there),
      λ pos. ap (λ o. mem' (buf + o)) (sym shown) ∙ ended pos,
      λ i out. p.frame i (elim out [ inl a ↦ inl (omega arith) | inr b ↦ inr b ]),
    )

-- Whatever the path, the separator and the length of the buffer, printing a path returns the length of
-- the text of its segments with the separator between them, writes as many of its characters as leave
-- room for a NUL, and the NUL behind them where the length is not 0, and changes nothing outside of the
-- buffer.
pub snprintf_custom_separator_lem :
    (mem : Mem) (buf len : ℕ) (path : AsPath) (sep : ℕ)
    → let text = joined sep (segments path) in
      let shown = take (len - 1) text in
      let done = snprintf_custom_separator mem buf len path sep in
      (done.1 ≡ length text)
      × Holds done.0 buf shown
      × (0 < len → done.0 (buf + length shown) ≡ 0)
      × ((i : ℕ) → (i < buf) ⊎ (buf + len ≤ i) → done.0 i ≡ mem i)
unfolding snprintf_custom_separator
snprintf_custom_separator_lem mem buf len path sep =
    let (mem', written) = path_snprintf_loop (segs path) false path.data_bytes mem buf len 0 sep in
    let (p, closed) = path-Closed (segs path) path.data_bytes mem buf len sep in
    let text = joined sep (segments path) in
    elim (Bool-cases (len == 0)) [
      | inl empty ↦ rw empty (
          printed_of buf len text mem mem' written p
            (unfold IsEnded in λ pos. absurd (ground arith)))
      | inr room ↦ elim (Bool-cases (written == 0)) [
        | inl nothing ↦
            let at : buf + 0 ≡ buf = omega arith in
            let first : min written (len - 1) ≡ 0 = ground arith in
            rw (room, nothing)
              (printed_of buf len text mem (poke mem' buf 0) written
                (subst (λ o. Appends buf len text mem 0 (poke mem' o 0) written) at
                  (poke-Appends buf len text mem mem' written 0 p (omega arith) (ground arith)))
                (unfold IsEnded in λ pos. rw (first, at) (poke-at mem' buf 0)))
        | inr something ↦ elim (Bool-cases (leb len written)) [
          | inl full ↦
              let at : buf + len - 1 ≡ buf + (len - 1) = ground arith in
              let last : min written (len - 1) ≡ len - 1 = ground arith in
              rw (room, something, full, at)
                (printed_of buf len text mem (poke mem' (buf + (len - 1)) 0) written
                  (poke-Appends buf len text mem mem' written (len - 1) p (omega arith)
                    (ground arith))
                  (unfold IsEnded in λ pos. rw last (poke-at mem' (buf + (len - 1)) 0)))
          | inr fits ↦
              let last : min written (len - 1) ≡ written = ground arith in
              rw (room, something, fits)
                (printed_of buf len text mem mem' written p
                  (unfold IsEnded in λ pos. rw last (closed (ground arith) (ground arith))))
        ]
      ]
    ]
