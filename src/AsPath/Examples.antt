-- ===== src/AsPath/Examples.antt =====
-- lib/utils/bgpstream_utils_as_path.c and bgpstream_utils_as_path_store.c on small paths.
use bgpstream.Base.{
  ℕ, zero, suc, ◌+◌, ◌≤◌, ◌<◌, ◌≡◌, ◌⊎◌, inl, refl, true, some, List, [], ◌∷◌, ◌++◌, arith, length,
  take,
}
use bgpstream.AsPath.{AsPath, external, create, walk_segs, get_next_seg, sizeof_seg, Realloc, equal}
use bgpstream.AsPath.Memory.{Mem, word, Holds}
use bgpstream.AsPath.Segments.{
  asn, group, IsSegment, IsPath, segments, read_seg, path_size, path_bytes, seg_bytes, words_bytes,
  seg_size, last_offset,
}
use bgpstream.AsPath.Populate.{Attribute, populated, failed, populate, is_known, seg_type}
use bgpstream.AsPath.Message.{Part, IsPart, message, asns_bytes, asn_bytes, segs_of, part_segs}
use bgpstream.AsPath.Turns.{Works}
use bgpstream.AsPath.Populated.{populate-IsPath, populate-failed}
use bgpstream.AsPath.Print.{digits, snprintf_custom_separator}
use bgpstream.AsPath.SegPrinted.{seg_text}
use bgpstream.AsPath.Printed.{joined, snprintf_custom_separator_lem}
use bgpstream.AsPath.Store.{
  StorePath, Store, PathId, Allocator, store_create, store_get_path_id, get_store_path,
  path_get_path,
}
use bgpstream.AsPath.Restored.{IsRoomy}
use bgpstream.AsPath.Stored.{IsStore, store_get_path_id-restores}

-- Memory that begins with these bytes.
abbrev of_bytes : List ℕ → Mem
of_bytes [] i = 0
of_bytes (b ∷ bs) zero = b
of_bytes (b ∷ bs) (suc i) = of_bytes bs i

abbrev in_place : Realloc
in_place = λ mem old len. some mem

in_place-Works : Works in_place
in_place-Works = record { grows = λ mem old len. (mem, refl, λ i p q. refl) }

-- "100 200 {7}" with AS numbers of two bytes.
abbrev parts : List Part
parts = record { kind = 2; asns = 100 ∷ 200 ∷ [] } ∷ record { kind = 1; asns = 7 ∷ [] } ∷ []

abbrev attribute : ℕ → List ℕ → Attribute
attribute len tail = record {
  asn_len = 2;
  len = len;
  data_bytes = of_bytes ((2 ∷ 2 ∷ 0 ∷ 100 ∷ 0 ∷ 200 ∷ 1 ∷ 1 ∷ 0 ∷ 7 ∷ []) ++ tail);
}

populate-IsPath_example :
    (path' : AsPath) × (populate in_place create (attribute 10 []) ≡ populated path')
    × IsPath path' (segs_of parts)
    × (segments path' ≡ segs_of parts)
    × (path'.data_len ≤ path'.data_alloc_len)
    × (path'.data_alloc_len < external)
populate-IsPath_example =
    populate-IsPath in_place in_place-Works (attribute 10 []) (inl refl) create parts
      (unfold IsPart in omega arith) (unfold Holds message asns_bytes asn_bytes in omega arith)
      (unfold message asns_bytes asn_bytes in omega arith)
      (unfold path_size segs_of part_segs seg_size seg_bytes words_bytes seg_type in omega arith)
      (unfold message asns_bytes asn_bytes in refl) (omega arith)

segs_of-two : segs_of parts ≡ asn 100 ∷ asn 200 ∷ group 2 (7 ∷ []) ∷ []
unfolding segs_of part_segs seg_type
segs_of-two = refl

-- A third segment of type 9.
populate-failed_example :
    (path' : AsPath) × (populate in_place create (attribute 12 (9 ∷ 0 ∷ [])) ≡ failed path')
    × IsPath path' (segs_of parts)
    × (segments path' ≡ segs_of parts)
populate-failed_example =
    populate-failed in_place in_place-Works (attribute 12 (9 ∷ 0 ∷ [])) (inl refl) create parts
      (unfold IsPart in omega arith) (unfold Holds message asns_bytes asn_bytes in omega arith)
      (unfold message asns_bytes asn_bytes in omega arith)
      (unfold path_size segs_of part_segs seg_size seg_bytes words_bytes seg_type in omega arith)
      (unfold message asns_bytes asn_bytes in omega arith)
      (inl (unfold message asns_bytes asn_bytes is_known in refl))

-- "100 7".
abbrev path : AsPath
path = record {
  data_bytes = of_bytes (1 ∷ 100 ∷ 0 ∷ 0 ∷ 0 ∷ 1 ∷ 7 ∷ 0 ∷ 0 ∷ 0 ∷ []);
  data_len = 10;
  data_alloc_len = 10;
  seg_cnt = 2;
  origin_offset = 5;
}

path-IsPath : IsPath path (asn 100 ∷ asn 7 ∷ [])
unfolding Holds path_bytes path_size seg_size seg_bytes last_offset IsSegment
path-IsPath = record {
  bytes_of = omega arith;
  len = refl;
  short = omega arith;
  fits = omega arith;
  cnt = refl;
  origin = refl;
}

abbrev env : Allocator
env = record { malloc = λ size. some (λ i. 0); has_room = λ count. true; realloc = in_place }

env-IsRoomy : IsRoomy env
env-IsRoomy = record {
  grows = in_place-Works;
  block = λ size. (λ i. 0, refl);
  room = λ count. refl;
}

store_create-IsStore : IsStore store_create
store_create-IsStore = record {
  counted = λ key ps e. absurd (cc e);
  stored = λ key ps e. absurd (cc e);
}

store_get_path_id-restores_example :
    (id : PathId) × (store' : Store) × (sp : StorePath) × (path' : AsPath) × (store_get_path_id env
        store_create
        (some path)
        100
      ≡ (some id, store'))
    × (get_store_path store' id ≡ some sp)
    × (path_get_path env sp 100 ≡ some path')
    × (equal path' path ≡ true)
    × IsPath path' (asn 100 ∷ asn 7 ∷ [])
    × IsStore store'
    × ((old : PathId) (x : StorePath)
        → get_store_path store_create old ≡ some x
        → get_store_path store' old ≡ some x)
    × ((store_get_path_id env store' (some path) 100).0 ≡ some id)
store_get_path_id-restores_example =
    store_get_path_id-restores env store_create path 100 (asn 100 ∷ asn 7 ∷ []) env-IsRoomy
      store_create-IsStore (λ key ps e. absurd (cc e)) path-IsPath

snprintf_custom_separator_example :
    let done = snprintf_custom_separator (λ i. 1) 3 5 path b' ' in
    let text = joined b' ' (segments path) in
    (done.1 ≡ length text)
    × Holds done.0 3 (take 4 text)
    × (0 < 5 → done.0 (3 + length (take 4 text)) ≡ 0)
    × ((i : ℕ) → (i < 3) ⊎ (3 + 5 ≤ i) → done.0 i ≡ 1)
snprintf_custom_separator_example = snprintf_custom_separator_lem (λ i. 1) 3 5 path b' '

-- The text is "100 7".
path_text : joined b' ' (segments path) ≡ 49 ∷ 48 ∷ 48 ∷ 32 ∷ 55 ∷ []
unfolding joined seg_text digits read_seg walk_segs get_next_seg sizeof_seg word
path_text = refl
