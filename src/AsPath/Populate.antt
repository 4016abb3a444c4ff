-- ===== src/AsPath/Populate.antt =====
-- bgpstream_as_path_populate of lib/utils/bgpstream_utils_as_path.c: an AS path from the attribute of a
-- BGP message as libbgpdump hands it over, and its struct aspath of lib/bgpdump/bgpdump_attr.h.
use bgpstream.Base.{
  ℕ, zero, suc, ◌+◌, ◌*◌, ◌%◌, ◌^◌, Bool, ◌||◌, not, Option, none, some, ltb, ◌==◌, if◌then◌else◌,
}
use bgpstream.AsPath.{
  AsPath, seg_asn, seg_set, seg_confed_set, seg_confed_seq, clear, Realloc, reserve,
}
use bgpstream.AsPath.Memory.{Mem, poke, poke_word}

-- The types of a segment in a message.
abbrev pub as_set : ℕ
as_set = 1

abbrev pub as_sequence : ℕ
as_sequence = 2

abbrev pub as_confed_sequence : ℕ
as_confed_sequence = 3

abbrev pub as_confed_set : ℕ
as_confed_set = 4

abbrev pub as_header_size : ℕ
as_header_size = 2

pub record Attribute : Type 0 where
  pub asn_len : ℕ
  pub len : ℕ
  pub data_bytes : Mem

-- How the call ends: with 0, with -1, or at an assert. Its callers go on with the path after -1 too.
pub data Outcome : Type 0 where
  populated : AsPath → Outcome
  failed : AsPath → Outcome
  aborted : Outcome

-- The AS number in network byte order; `none` is the assert on the length of AS numbers.
unfoldable pub read_asn : Attribute → ℕ → Option ℕ
read_asn attr ptr =
    if attr.asn_len == 2
    then some (256 * attr.data_bytes ptr + attr.data_bytes (ptr + 1))
    else if attr.asn_len == 4
    then some (
        16777216 * attr.data_bytes ptr
        + 65536 * attr.data_bytes (ptr + 1)
        + 256 * attr.data_bytes (ptr + 2)
        + attr.data_bytes (ptr + 3))
    else none

-- The loop over the AS numbers of an AS_SEQUENCE, each of which becomes a segment: `ptr` is where the
-- next one is read. The result is the path and the offset of the iterator.
unfoldable pub sequence_loop : ℕ → Attribute → ℕ → AsPath → ℕ → Option (AsPath × ℕ)
sequence_loop zero attr ptr path cur_offset = some (path, cur_offset)
sequence_loop (suc count) attr ptr path cur_offset = elim (read_asn attr ptr) [
  | none ↦ none
  | some asn ↦
      sequence_loop count attr (ptr + attr.asn_len)
        (record path {
          data_bytes = poke_word (poke path.data_bytes cur_offset seg_asn) (cur_offset + 1) asn;
          origin_offset = cur_offset;
          seg_cnt = (path.seg_cnt + 1) % 2 ^ 16;
        })
        ((cur_offset + 5) % 2 ^ 16)
]

-- The loop over the AS numbers of another segment, each of which is stored at `at`, in its place of the
-- array of the segment.
unfoldable pub set_loop : ℕ → Attribute → ℕ → Mem → ℕ → Option Mem
set_loop zero attr ptr bytes at = some bytes
set_loop (suc count) attr ptr bytes at = elim (read_asn attr ptr) [
  | none ↦ none
  | some asn ↦ set_loop count attr (ptr + attr.asn_len) (poke_word bytes at asn) (at + 4)
]

-- The type of a segment of the path for one of the message.
unfoldable pub seg_type : ℕ → ℕ
seg_type kind =
    if kind == as_set
    then seg_set
    else if kind == as_confed_set
    then seg_confed_set
    else seg_confed_seq

unfoldable pub is_known : ℕ → Bool
is_known kind =
    kind == as_set || (kind == as_sequence || (kind == as_confed_set || kind == as_confed_sequence))

-- A segment of the message at `ptr`, for which the path has room up to `new_len`.
unfoldable pub add_seg : Attribute → ℕ → ℕ → AsPath → ℕ → Option (AsPath × ℕ)
add_seg attr ptr new_len path cur_offset =
    let kind : ℕ = attr.data_bytes ptr in
    let count : ℕ = attr.data_bytes (ptr + 1) in
    if kind == as_sequence
    then sequence_loop count attr (ptr + as_header_size) path cur_offset
    else elim (set_loop count attr (ptr + as_header_size)
        (poke (poke path.data_bytes cur_offset (seg_type kind)) (cur_offset + 1) count)
        (cur_offset + 2)) [
          | none ↦ none
          | some bytes ↦ some (
            record path {
              data_bytes = bytes;
              origin_offset = cur_offset;
              seg_cnt = (path.seg_cnt + 1) % 2 ^ 16;
            },
            new_len,
          )
        ]

-- The length of the path with the segment of the message at `ptr`.
unfoldable pub len_with : Attribute → ℕ → AsPath → ℕ
len_with attr ptr path =
    if attr.data_bytes ptr == as_sequence
    then path.data_len + 5 * attr.data_bytes (ptr + 1)
    else path.data_len + 2 + 4 * attr.data_bytes (ptr + 1)

-- The loop over the segments of the message. The type of the last segment, which the code compares the
-- new one with, keeps its first value, for which the test never holds.
unfoldable pub populate_loop : ℕ → Realloc → Attribute → ℕ → AsPath → ℕ → Outcome
populate_loop zero realloc attr ptr path cur_offset = populated path
populate_loop (suc turns) realloc attr ptr path cur_offset =
    let step : ℕ = attr.data_bytes (ptr + 1) * attr.asn_len + as_header_size in
    let new_len : ℕ = len_with attr ptr path in
    let rest =
      λ (path' : AsPath) (cur' : ℕ). populate_loop turns realloc attr (ptr + step) path' cur' in
    if not (ltb ptr attr.len)
    then populated path
    else if not (is_known (attr.data_bytes ptr))
    then failed path
    else if ltb attr.len (ptr + step)
    then failed path
    else if not (ltb new_len 65535)
    then aborted
    else elim (reserve realloc new_len path) [
      | none ↦ failed (record path { data_bytes = λ _. 0 })
      | some own ↦ elim (add_seg attr ptr new_len (record own { data_len = new_len }) cur_offset) [
        | none ↦ aborted
        | some (path', cur') ↦ rest path' cur'
      ]
    ]

-- A segment of the message takes two bytes or more.
unfoldable pub populate : Realloc → AsPath → Attribute → Outcome
populate realloc path attr = populate_loop (suc attr.len) realloc attr 0 (clear path) 0
