-- ===== src/AsPath.antt =====
-- lib/utils/bgpstream_utils_as_path.{h,c} and bgpstream_utils_as_path_int.h: AS paths, kept as an
-- array of bytes with one segment after the other. A pointer to a segment is its offset in the array.
pub mod Memory
pub mod Segments
pub mod Populate
pub mod Message
pub mod Adds
pub mod Parts
pub mod Turns
pub mod Populated
pub mod Walked
pub mod Print
pub mod Digits
pub mod Appends
pub mod SegPrinted
pub mod Printed
pub mod Store
pub mod Shallow
pub mod Restored
pub mod Finding
pub mod Stored
mod Examples
use Prim.Native.Nat.{bit_and, bit_or, bit_xor}
use bgpstream.Base.{
  ℕ, zero, suc, ◌+◌, ◌*◌, ◌/◌, ◌%◌, ◌^◌, Bool, true, false, ◌&&◌, not, Option, none, some, List, [],
  ◌∷◌, ltb, leb, ◌==◌, if◌then◌else◌,
}
use bgpstream.AsPath.Memory.{Mem, word, memcpy, same_bytes}

-- The types of a segment, but BGPSTREAM_AS_PATH_SEG_INVALID.
abbrev pub seg_asn : ℕ
seg_asn = 1

abbrev pub seg_set : ℕ
seg_set = 2

abbrev pub seg_confed_set : ℕ
seg_confed_set = 3

abbrev pub seg_confed_seq : ℕ
seg_confed_seq = 4

-- UINT16_MAX: data of this allocated length is not the path's own.
abbrev pub external : ℕ
external = 65535

pub record AsPath : Type 0 where
  pub data_bytes : Mem
  pub data_len : ℕ
  pub data_alloc_len : ℕ
  pub seg_cnt : ℕ
  pub origin_offset : ℕ

abbrev pub create : AsPath
create = record {
  data_bytes = λ _. 0;
  data_len = 0;
  data_alloc_len = 0;
  seg_cnt = 0;
  origin_offset = external;
}

unfoldable pub clear : AsPath → AsPath
clear path = record path { data_len = 0; seg_cnt = 0; origin_offset = external }

-- SIZEOF_SEG of the segment at an offset.
unfoldable pub sizeof_seg : Mem → ℕ → ℕ
sizeof_seg bytes off = if bytes off == seg_asn then 5 else 4 * bytes (off + 1) + 2

-- The iterator is its offset: the segment, if there is one left, and the offset behind it.
unfoldable pub get_next_seg : AsPath → ℕ → Option ℕ × ℕ
get_next_seg path cur_offset =
    if path.data_len == 0
    then (none, cur_offset)
    else if leb path.data_len cur_offset
    then (none, cur_offset)
    else (some cur_offset, (cur_offset + sizeof_seg path.data_bytes cur_offset) % 2 ^ 16)

-- The segments that a loop `while ((seg = get_next_seg(path, &iter)) != NULL)` sees in a number of
-- turns.
unfoldable pub walk_segs : ℕ → AsPath → ℕ → List ℕ
walk_segs zero path iter = []
walk_segs (suc turns) path iter =
    let (seg, iter') = get_next_seg path iter in
    let rest = walk_segs turns path iter' in elim seg [ none ↦ [] | some off ↦ off ∷ rest ]

-- Every segment has two bytes or more, so a walk whose offset does not wrap around ends within these
-- turns. The loop of the code would not end on a path whose offset does.
abbrev pub segs : AsPath → List ℕ
segs path = walk_segs (suc path.data_len) path 0

unfoldable pub get_len : AsPath → ℕ
get_len path = path.seg_cnt

unfoldable pub get_origin_seg : AsPath → Option ℕ
get_origin_seg path = if path.data_len == 0 then none else some path.origin_offset

unfoldable pub get_origin_val : AsPath → Option ℕ
get_origin_val path = elim (get_origin_seg path) [
  | none ↦ none
  | some off ↦
      if path.data_bytes off == seg_asn then some (word path.data_bytes (off + 1)) else none
]

-- The loop of update_fields: `offset` follows the iterator.
unfoldable pub count_segs : List ℕ → ℕ → AsPath → AsPath
count_segs [] offset path = path
count_segs (seg ∷ rest) offset path =
    count_segs rest ((offset + sizeof_seg path.data_bytes seg) % 2 ^ 16)
      (record path { origin_offset = offset; seg_cnt = (path.seg_cnt + 1) % 2 ^ 16 })

unfoldable pub update_fields : AsPath → AsPath
update_fields path = count_segs (segs path) 0 (record path { seg_cnt = 0 })

-- `realloc` gives the block of the new size that takes the place of one of the old size, or NULL.
abbrev pub Realloc : Type 0
Realloc = Mem → ℕ → ℕ → Option Mem

-- The buffer of the path has room for `len` bytes, or there is no memory.
unfoldable pub reserve : Realloc → ℕ → AsPath → Option AsPath
reserve realloc len path =
    if ltb path.data_alloc_len len
    then elim (realloc path.data_bytes path.data_alloc_len len) [
      | none ↦ none
      | some bytes ↦ some (record path { data_bytes = bytes; data_alloc_len = len })
    ]
    else some path

-- A path that has given up data that is not its own.
unfoldable pub disown : AsPath → AsPath
disown path =
    if path.data_alloc_len == external
    then record path { data_alloc_len = 0; data_bytes = λ _. 0 }
    else path

unfoldable pub populate_from_data : Realloc → AsPath → Mem → ℕ → Option AsPath
populate_from_data realloc path bytes data_len =
    elim (reserve realloc data_len (disown (clear path))) [
      | none ↦ none
      | some own ↦ some (
          update_fields
            (record own { data_bytes = memcpy own.data_bytes bytes data_len; data_len = data_len }))
    ]

unfoldable pub populate_from_data_zc : AsPath → Mem → ℕ → AsPath
populate_from_data_zc path bytes data_len =
    update_fields
      (record (clear path) { data_alloc_len = external; data_bytes = bytes; data_len = data_len })

-- Data that is not the path's own loses its length, but stays the argument of realloc.
unfoldable pub copy : Realloc → AsPath → AsPath → Option AsPath
copy realloc dst src =
    let fresh : AsPath =
      if dst.data_alloc_len == external then record dst { data_alloc_len = 0 } else dst in
    elim (reserve realloc src.data_len fresh) [
      | none ↦ none
      | some own ↦ some (record own {
        data_bytes = memcpy own.data_bytes src.data_bytes src.data_len;
        data_len = src.data_len;
        seg_cnt = src.seg_cnt;
        origin_offset = src.origin_offset;
      })
    ]

unfoldable pub equal : AsPath → AsPath → Bool
equal path1 path2 =
    path1.data_len == path2.data_len && same_bytes path1.data_bytes path2.data_bytes path1.data_len

-- The AS number of a segment, or the first of a set.
unfoldable pub seg_hash : Mem → ℕ → ℕ
seg_hash bytes off = if bytes off == seg_asn then word bytes (off + 1) else word bytes (off + 2)

unfoldable pub seg_equal : Mem → ℕ → Mem → ℕ → Bool
seg_equal data1 seg1 data2 seg2 =
    if not (data1 seg1 == data2 seg2)
    then false
    else if data1 seg1 == seg_asn
    then word data1 (seg1 + 1) == word data2 (seg2 + 1)
    else if not (data1 (seg1 + 1) == data2 (seg2 + 1))
    then false
    else same_bytes (λ i. data1 (seg1 + 2 + i)) (λ i. data2 (seg2 + 2 + i)) (4 * data2 (seg2 + 1))

unfoldable pub mixbits : ℕ → ℕ
mixbits a =
    let b : ℕ = bit_xor a (a / 2 ^ 4) in
    let c : ℕ = (bit_xor b 0xdeadbeef + b * 2 ^ 5 % 2 ^ 32) % 2 ^ 32 in bit_xor c (c / 2 ^ 11)

unfoldable pub hash : AsPath → ℕ
hash path =
    if ltb 0 path.data_len
    then mixbits (
        bit_or (seg_hash path.data_bytes 0 % 2 ^ 16 * 2 ^ 8)
          (seg_hash path.data_bytes path.origin_offset % 2 ^ 16))
    else 0
