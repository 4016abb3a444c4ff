-- ===== src/AsPath/Print.antt =====
-- lib/utils/bgpstream_utils_as_path.c: bgpstream_as_path_seg_snprintf, bgpstream_as_path_snprintf and
-- bgpstream_as_path_get_filterable, which print into a buffer of a length.
use bgpstream.Base.{
  ℕ, zero, suc, ◌+◌, ◌-◌, ◌/◌, ◌%◌, Bool, true, false, List, [], ◌∷◌, ltb, leb, ◌==◌, ◌&&◌,
  if◌then◌else◌, length, take,
}
use bgpstream.AsPath.{AsPath, seg_asn, seg_set, seg_confed_set, seg_confed_seq, segs}
use bgpstream.AsPath.Memory.{Mem, word, poke}

-- The digits of a number; a uint32_t has at most ten.
unfoldable pub digits : ℕ → ℕ → List ℕ → List ℕ
digits zero n text = text
digits (suc places) n text =
    let more = digits places (n / 10) ((48 + n % 10) ∷ text) in
    if ltb n 10 then (48 + n) ∷ text else more

abbrev pub decimal : ℕ → List ℕ
decimal n = digits 10 n []

unfoldable pub write : Mem → ℕ → List ℕ → Mem
write mem at [] = mem
write mem at (c ∷ text) = write (poke mem at c) (at + 1) text

-- snprintf of a text into a buffer: what is written, and the length of the whole.
unfoldable pub put_text : Mem → ℕ → ℕ → List ℕ → Mem × ℕ
put_text mem buf len text =
    let front : List ℕ = take (len - 1) text in
    (if len == 0 then mem else poke (write mem buf front) (buf + length front) 0, length text)

-- snprintf(buf, len, "%" PRIu32, n).
unfoldable pub snprintf : Mem → ℕ → ℕ → ℕ → Mem × ℕ
snprintf mem buf len n = put_text mem buf len (decimal n)

-- ADD_CHAR, where `bufp` is `buf + written`.
unfoldable pub add_char : Mem → ℕ → ℕ → ℕ → ℕ → Mem × ℕ
add_char mem buf len written c =
    (if ltb written len then poke mem (buf + written) c else mem, written + 1)

unfoldable pub remain : ℕ → ℕ → ℕ
remain len written = if leb len written then 0 else len - written

-- No AS number is left behind this one.
unfoldable pub is_last : ℕ → Bool
is_last zero = true
is_last (suc left) = false

-- The loop of SET_SNPRINTF over the AS numbers that are left, at `asns`.
unfoldable pub set_snprintf_loop : ℕ → Mem → ℕ → Mem → ℕ → ℕ → ℕ → ℕ → Mem × ℕ
set_snprintf_loop zero bytes asns mem buf len written schr = (mem, written)
set_snprintf_loop (suc count) bytes asns mem buf len written schr =
    let (mem1, size) = snprintf mem (buf + written) (remain len written) (word bytes asns) in
    let (mem2, written2) : Mem × ℕ =
      if is_last count
      then (mem1, written + size)
      else add_char mem1 buf len (written + size) schr in
    set_snprintf_loop count bytes (asns + 4) mem2 buf len written2 schr

-- SET_SNPRINTF.
unfoldable pub set_snprintf : Mem → ℕ → Mem → ℕ → ℕ → ℕ → ℕ → ℕ → Mem × ℕ
set_snprintf bytes seg mem buf len fchr lchr schr =
    let (mem1, written1) = add_char mem buf len 0 fchr in
    let (mem2, written2) =
      set_snprintf_loop (bytes (seg + 1)) bytes (seg + 2) mem1 buf len written1 schr in
    let (mem3, written3) = add_char mem2 buf len written2 lchr in
    (if ltb written3 len then poke mem3 (buf + written3) 0 else mem3, written3)

-- The switch over the type of the segment.
unfoldable pub seg_switch : Mem → ℕ → Mem → ℕ → ℕ → Mem × ℕ
seg_switch bytes seg mem buf len =
    if bytes seg == seg_asn
    then snprintf mem buf len (word bytes (seg + 1))
    else if bytes seg == seg_set
    then set_snprintf bytes seg mem buf len b'{' b'}' b','
    else if bytes seg == seg_confed_set
    then set_snprintf bytes seg mem buf len b'[' b']' b','
    else if bytes seg == seg_confed_seq
    then set_snprintf bytes seg mem buf len b'(' b')' b' '
    else (if ltb 0 len then poke mem buf 0 else mem, 0)

unfoldable pub seg_snprintf : Mem → ℕ → Mem → ℕ → ℕ → Mem × ℕ
seg_snprintf bytes seg mem buf len =
    let (mem', written) = seg_switch bytes seg mem buf len in
    (if leb len written && ltb 0 len then poke mem' (buf + len - 1) 0 else mem', written)

-- The loop over the segments of the path; a separator goes in front of each but the first.
unfoldable pub path_snprintf_loop : List ℕ → Bool → Mem → Mem → ℕ → ℕ → ℕ → ℕ → Mem × ℕ
path_snprintf_loop [] need_sep bytes mem buf len written separator = (mem, written)
path_snprintf_loop (seg ∷ rest) need_sep bytes mem buf len written separator =
    let (mem1, written1) : Mem × ℕ =
      if need_sep then add_char mem buf len written separator else (mem, written) in
    let (mem2, size) = seg_snprintf bytes seg mem1 (buf + written1) (remain len written1) in
    path_snprintf_loop rest true bytes mem2 buf len (written1 + size) separator

unfoldable pub snprintf_custom_separator : Mem → ℕ → ℕ → AsPath → ℕ → Mem × ℕ
snprintf_custom_separator mem buf len path separator =
    let (mem', written) =
      path_snprintf_loop (segs path) false path.data_bytes mem buf len 0 separator in
    (
      if len == 0
          then mem'
          else if written == 0
          then poke mem' buf 0
          else if leb len written
          then poke mem' (buf + len - 1) 0
          else mem',
      written,
    )

unfoldable pub path_snprintf : Mem → ℕ → ℕ → AsPath → Mem × ℕ
path_snprintf mem buf len path = snprintf_custom_separator mem buf len path b' '

unfoldable pub get_filterable : Mem → ℕ → ℕ → AsPath → Mem × ℕ
get_filterable mem buf len path = snprintf_custom_separator mem buf len path b'_'
