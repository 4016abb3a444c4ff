-- ===== src/AsPath/SegPrinted.antt =====
-- lib/utils/bgpstream_utils_as_path.c: what bgpstream_as_path_seg_snprintf prints.
use mathlib.Core.Path.{subst}
use bgpstream.Base.{
  ℕ, zero, suc, min, ◌+◌, ◌-◌, ◌≤◌, ◌<◌, ◌≡◌, inl, inr, refl, sym, ap, ◌∙◌, ◌&&◌, List, [], ◌∷◌,
  ◌++◌, arith, ltb, leb, ◌==◌, if◌then◌else◌, length, take, Bool-cases,
}
use bgpstream.AsPath.{seg_asn, seg_set, seg_confed_set, seg_confed_seq}
use bgpstream.AsPath.Memory.{Mem, word, poke, Holds, Holds-agree, poke-at, poke-other}
use bgpstream.AsPath.Segments.{Segment, asn, group, read_words, read_seg}
use bgpstream.AsPath.Print.{
  decimal, write, put_text, snprintf, add_char, remain, is_last, set_snprintf_loop, set_snprintf,
  seg_switch, seg_snprintf,
}
use bgpstream.AsPath.Appends.{
  Appends, length-take, Holds-take, Appends-trans, min-length, write_lem, add_char-Appends,
}

-- A buffer of some length ends with a NUL behind what has been printed.
unfoldable pub IsEnded : ℕ → ℕ → Mem → ℕ → Type 0
IsEnded buf len mem written = 0 < len → mem (buf + min written (len - 1)) ≡ 0

-- From the buffer behind what is there already to the whole.
pub Appends-at :
    (buf len : ℕ) (text : List ℕ) (mem : Mem) (from : ℕ) (mem' : Mem) (size : ℕ)
    → Appends (buf + from) (len - from) text mem 0 mem' size
    → Appends buf len text mem from mem' (from + size)
Appends-at buf len text mem from mem' size p =
    let e : buf + from + 0 ≡ buf + from = omega arith in
    let k : len - from - 1 - 0 ≡ len - 1 - from = omega arith in
    record {
      count = omega (arith, p.count);
      there =
          subst (λ o. Holds mem' o (take (len - 1 - from) text)) e
            (subst (λ j. Holds mem' (buf + from + 0) (take j text)) k p.there);
      frame = λ i out. p.frame i (elim out [
        | inl a ↦ inl (omega arith)
        | inr b ↦ elim (Bool-cases (ltb i (buf + from))) [
          | inl low ↦ inl (ground arith)
          | inr high ↦ inr (ground arith)
        ]
      ]);
    }

pub put_text-Appends :
    (mem : Mem) (buf len : ℕ) (whole : List ℕ)
    → Appends buf len whole mem 0 (put_text mem buf len whole).0 (put_text mem buf len whole).1
      × IsEnded buf len (put_text mem buf len whole).0 (put_text mem buf len whole).1
unfolding put_text IsEnded
put_text-Appends mem buf len whole =
    let text : List ℕ = take (len - 1) whole in
    let (fits, short) = length-take (len - 1) whole in
    let (holds, frame) = write_lem mem buf text in
    let k : len - 1 - 0 ≡ len - 1 = omega arith in
    let e : buf + 0 ≡ buf = omega arith in
    elim (Bool-cases (len == 0)) [
      | inl empty ↦
          let none_left : len - 1 ≡ 0 = ground arith in
          rw empty (
            record {
              count = omega arith;
              there = rw (k, none_left) (unfold Holds in tt);
              frame = λ i out. refl;
            },
            λ pos. absurd (ground arith),
          )
      | inr some_room ↦ rw some_room (
        record {
          count = omega arith;
          there =
              rw (k, e)
                (Holds-agree (write mem buf text) _ buf text
                  (λ i lo hi.
                    poke-other (write mem buf text) (buf + length text) 0 i (ground arith))
                  holds);
          frame = λ i out.
              poke-other (write mem buf text) (buf + length text) 0 i
                (elim out [ inl a ↦ ground arith | inr b ↦ ground arith ])
              ∙ frame i (elim out [ inl a ↦ inl (omega arith) | inr b ↦ inr (ground arith) ]);
        },
        λ pos. rw (min-length (len - 1) whole) (poke-at (write mem buf text) (buf + length text) 0),
      )
    ]

snprintf-Appends :
    (mem : Mem) (buf len n : ℕ)
    → Appends buf len (decimal n) mem 0 (snprintf mem buf len n).0 (snprintf mem buf len n).1
      × IsEnded buf len (snprintf mem buf len n).0 (snprintf mem buf len n).1
unfolding snprintf
snprintf-Appends mem buf len n = put_text-Appends mem buf len (decimal n)

unfoldable pub set_text : ℕ → List ℕ → List ℕ
set_text sep [] = []
set_text sep (n ∷ []) = decimal n
set_text sep (n ∷ m ∷ ns) = decimal n ++ (sep ∷ set_text sep (m ∷ ns))

pub Appends-nil : (buf len : ℕ) (mem : Mem) (from : ℕ) → Appends buf len [] mem from mem from
unfolding Holds
Appends-nil buf len mem from = record {
  count = omega arith;
  there = Holds-take mem (buf + from) (len - 1 - from) [] tt;
  frame = λ i out. refl;
}

pub remain_lem : (len written : ℕ) → remain len written ≡ len - written
unfolding remain
remain_lem len written = ground arith

number-Appends :
    (mem : Mem) (buf len written n : ℕ)
    → Appends buf len
        (decimal n)
        mem
        written
        (snprintf mem (buf + written) (remain len written) n).0
        (written + (snprintf mem (buf + written) (remain len written) n).1)
number-Appends mem buf len written n = rw (remain_lem len written) (
    Appends-at buf len (decimal n) mem written _ _
      (snprintf-Appends mem (buf + written) (len - written) n).0)

set_loop-Appends :
    (count : ℕ) (bytes : Mem) (asns : ℕ) (mem : Mem) (buf len written schr : ℕ)
    → let done = set_snprintf_loop count bytes asns mem buf len written schr in
      Appends buf len (set_text schr (read_words count bytes asns)) mem written done.0 done.1
unfolding set_snprintf_loop read_words set_text is_last
set_loop-Appends zero bytes asns mem buf len written schr = Appends-nil buf len mem written
set_loop-Appends (suc zero) bytes asns mem buf len written schr =
    number-Appends mem buf len written (word bytes asns)
set_loop-Appends (suc (suc count)) bytes asns mem buf len written schr =
    let n = word bytes asns in
    let (mem1, size) = snprintf mem (buf + written) (remain len written) n in
    let (mem2, written2) = add_char mem1 buf len (written + size) schr in
    let one = number-Appends mem buf len written n in
    let two = add_char-Appends mem1 buf len (written + size) schr in
    let more = set_loop-Appends (suc count) bytes (asns + 4) mem2 buf len written2 schr in
    Appends-trans buf len (decimal n) _ mem mem1 _ written (written + size) _ one
      (Appends-trans buf len (schr ∷ []) _ mem1 mem2 _ (written + size) written2 _ two more)

-- A NUL behind the text leaves the text alone.
pub poke-Appends :
    (buf len : ℕ) (text : List ℕ) (mem mem' : Mem) (to at : ℕ)
    → Appends buf len text mem 0 mem' to
    → min to (len - 1) ≤ at
    → at < len
    → Appends buf len text mem 0 (poke mem' (buf + at) 0) to
poke-Appends buf len text mem mem' to at p low high =
    let (short, shorter) = length-take (len - 1 - 0) text in
    record {
      count = p.count;
      there =
          Holds-agree mem' (poke mem' (buf + at) 0) (buf + 0) (take (len - 1 - 0) text)
            (λ i lo hi. poke-other mem' (buf + at) 0 i (ground (arith, p.count, short, shorter)))
            p.there;
      frame = λ i out.
          poke-other mem' (buf + at) 0 i (elim out [ inl a ↦ ground arith | inr b ↦ ground arith ])
          ∙ p.frame i out;
    }

-- What a segment is printed as.
unfoldable pub group_text : ℕ → ℕ → ℕ → List ℕ → List ℕ
group_text fchr lchr schr ns = (fchr ∷ []) ++ (set_text schr ns ++ (lchr ∷ []))

unfoldable pub seg_text : Segment → List ℕ
seg_text (asn n) = decimal n
seg_text (group kind ns) =
    if kind == seg_set
    then group_text b'{' b'}' b',' ns
    else if kind == seg_confed_set
    then group_text b'[' b']' b',' ns
    else if kind == seg_confed_seq
    then group_text b'(' b')' b' ' ns
    else []

-- A segment is printed, and closed if there is room.
abbrev Closed : ℕ → ℕ → List ℕ → Mem → Mem × ℕ → Type 0
Closed buf len text mem done =
    Appends buf len text mem 0 done.0 done.1 × (done.1 < len → done.0 (buf + done.1) ≡ 0)

set_snprintf-Closed :
    (bytes : Mem) (seg : ℕ) (mem : Mem) (buf len fchr lchr schr : ℕ)
    → Closed buf len
        (group_text fchr lchr schr (read_words (bytes (seg + 1)) bytes (seg + 2)))
        mem
        (set_snprintf bytes seg mem buf len fchr lchr schr)
unfolding set_snprintf group_text
set_snprintf-Closed bytes seg mem buf len fchr lchr schr =
    let count = bytes (seg + 1) in
    let (mem1, written1) = add_char mem buf len 0 fchr in
    let (mem2, written2) = set_snprintf_loop count bytes (seg + 2) mem1 buf len written1 schr in
    let (mem3, written3) = add_char mem2 buf len written2 lchr in
    let one = add_char-Appends mem buf len 0 fchr in
    let two = set_loop-Appends count bytes (seg + 2) mem1 buf len written1 schr in
    let three = add_char-Appends mem2 buf len written2 lchr in
    let all =
      Appends-trans buf len (fchr ∷ []) _ mem mem1 mem3 0 written1 written3 one
        (Appends-trans buf len _ (lchr ∷ []) mem1 mem2 mem3 written1 written2 written3 two three) in
    elim (Bool-cases (ltb written3 len)) [
      | inl room ↦ rw room (
        poke-Appends buf len _ mem mem3 written3 written3 all (omega arith) (ground arith),
        λ lt. poke-at mem3 (buf + written3) 0,
      )
      | inr full ↦ rw full (all, λ lt. absurd (ground arith))
    ]

seg_switch-Closed :
    (bytes : Mem) (seg : ℕ) (mem : Mem) (buf len : ℕ)
    → Closed buf len (seg_text (read_seg bytes seg)) mem (seg_switch bytes seg mem buf len)
unfolding seg_switch seg_text read_seg
seg_switch-Closed bytes seg mem buf len = elim (Bool-cases (bytes seg == seg_asn)) [
  | inl one ↦
      let (all, ended) = snprintf-Appends mem buf len (word bytes (seg + 1)) in
      let done = snprintf mem buf len (word bytes (seg + 1)) in
      rw one (all, λ lt. closed_of buf len done.0 done.1 ended lt)
  | inr many ↦ elim (Bool-cases (bytes seg == seg_set)) [
    | inl a ↦ rw (many, a) (set_snprintf-Closed bytes seg mem buf len b'{' b'}' b',')
    | inr not_set ↦ elim (Bool-cases (bytes seg == seg_confed_set)) [
      | inl b ↦ rw (many, not_set, b) (set_snprintf-Closed bytes seg mem buf len b'[' b']' b',')
      | inr not_confed ↦ elim (Bool-cases (bytes seg == seg_confed_seq)) [
        | inl c ↦
            rw (many, not_set, not_confed, c)
              (set_snprintf-Closed bytes seg mem buf len b'(' b')' b' ')
        | inr unknown ↦ rw (many, not_set, not_confed, unknown) (nothing_printed mem buf len)
      ]
    ]
  ]
]
  where
    closed_of :
        (buf len : ℕ) (mem : Mem) (to : ℕ) → IsEnded buf len mem to → to < len → mem (buf + to) ≡ 0
    closed_of buf len mem to ended lt =
        let e : min to (len - 1) ≡ to = omega arith in
        ap (λ k. mem (buf + k)) (sym e) ∙ (unfold IsEnded in ended (omega arith))

    nothing_printed :
        (mem : Mem) (buf len : ℕ)
        → Closed buf len [] mem (if ltb 0 len then poke mem buf 0 else mem, 0)
    nothing_printed mem buf len =
        let e : buf + 0 ≡ buf = omega arith in
        elim (Bool-cases (ltb 0 len)) [
          | inl room ↦ rw room (
            rw e at (
                poke-Appends buf len [] mem mem 0 0 (Appends-nil buf len mem 0) (omega arith)
                  (ground arith)),
            λ lt. rw e (poke-at mem buf 0),
          )
          | inr full ↦ rw full (Appends-nil buf len mem 0, λ lt. absurd (ground arith))
        ]

pub seg_snprintf-Appends :
    (bytes : Mem) (seg : ℕ) (mem : Mem) (buf len : ℕ)
    → let done = seg_snprintf bytes seg mem buf len in
      Appends buf len (seg_text (read_seg bytes seg)) mem 0 done.0 done.1
      × IsEnded buf len done.0 done.1
unfolding seg_snprintf IsEnded
seg_snprintf-Appends bytes seg mem buf len =
    let (mem', written) = seg_switch bytes seg mem buf len in
    let (all, closed) = seg_switch-Closed bytes seg mem buf len in
    elim (Bool-cases (leb len written && ltb 0 len)) [
      | inl full ↦
          let at : buf + len - 1 ≡ buf + (len - 1) = ground arith in
          let last : min written (len - 1) ≡ len - 1 = ground arith in
          rw (full, at, last)
            (
              poke-Appends buf len _ mem mem' written (len - 1) all (omega arith) (ground arith),
              λ pos. poke-at mem' (buf + (len - 1)) 0,
            )
      | inr room ↦ rw room (
        all,
        λ pos.
            let lt : written < len = ground arith in
            let last : min written (len - 1) ≡ written = omega arith in
            ap (λ k. mem' (buf + k)) last ∙ closed lt,
      )
    ]
