-- ===== src/AsPath/Store.antt =====
-- lib/utils/bgpstream_utils_as_path_store.{h,c}: the store of AS paths. The hash map from hashes to sets
-- of paths is khash, which is not part of the repository: a function, `none` where the key is absent.
use bgpstream.Base.{
  ℕ, ◌+◌, ◌-◌, ◌%◌, ◌^◌, Bool, true, false, ◌&&◌, not, Option, none, some, List, [], ◌∷◌, ◌++◌, ltb,
  leb, ◌==◌, if◌then◌else◌, get_elem?, take,
}
use bgpstream.AsPath.{
  AsPath, seg_asn, external, create, clear, update_fields, populate_from_data_zc, Realloc, copy,
  equal, hash,
}
use bgpstream.AsPath.Memory.{Mem, word, poke, poke_word, memcpy}

pub record StorePath : Type 0 where
  pub is_core : Bool
  pub idx : ℕ
  pub path : AsPath

pub record PathSet : Type 0 where
  pub paths : List StorePath
  pub paths_cnt : ℕ

pub record Store : Type 0 where
  pub path_set : ℕ → Option PathSet
  pub paths_cnt : ℕ

pub record PathId : Type 0 where
  pub path_hash : ℕ
  pub path_id : ℕ

-- UINT16_MAX, the path id of errors, and UINT32_MAX, the hash of no path.
abbrev pub no_id : ℕ
no_id = 65535

abbrev pub no_path_hash : ℕ
no_path_hash = 4294967295

abbrev pub store_create : Store
store_create = record { path_set = λ _. none; paths_cnt = 0 }

-- What the allocator answers: the block that malloc gives for a size, whether the array of paths can
-- grow to a length, and realloc.
pub record Allocator : Type 0 where
  pub malloc : ℕ → Option Mem
  pub has_room : ℕ → Bool
  pub realloc : Realloc

unfoldable pub store_path_dup : Allocator → StorePath → Option StorePath
store_path_dup env src = elim (env.malloc src.path.data_len) [
  | none ↦ none
  | some block ↦ some (record src {
    path = record src.path {
      data_bytes = memcpy block src.path.data_bytes src.path.data_len;
      data_alloc_len = src.path.data_len;
    };
  })
]

unfoldable pub same_core : Bool → Bool → Bool
same_core true b = b
same_core false b = not b

unfoldable pub store_path_equal : StorePath → StorePath → Bool
store_path_equal sp1 sp2 = same_core sp1.is_core sp2.is_core && equal sp1.path sp2.path

-- The index of the path in the set, counted from `i` on.
unfoldable pub find_path : List StorePath → ℕ → StorePath → Option ℕ
find_path [] i findme = none
find_path (sp ∷ rest) i findme =
    if store_path_equal sp findme then some i else find_path rest (i + 1) findme

-- The path id, the set, and the number of paths of the store.
unfoldable pub pathset_get_path_id : Allocator → ℕ → PathSet → StorePath → ℕ × PathSet × ℕ
pathset_get_path_id env total ps findme = elim (find_path (take ps.paths_cnt ps.paths) 0 findme) [
  | some i ↦ (i, ps, total)
  | none ↦
      if not (env.has_room (ps.paths_cnt + 1))
      then (no_id, record ps { paths = [] }, (total + 1) % 2 ^ 32)
      else elim (store_path_dup env (record findme { idx = total })) [
        | none ↦ (no_id, ps, (total + 1) % 2 ^ 32)
        | some sp ↦ (
          ps.paths_cnt,
          record {
            paths = take ps.paths_cnt ps.paths ++ sp ∷ [];
            paths_cnt = (ps.paths_cnt + 1) % 2 ^ 16;
          },
          (total + 1) % 2 ^ 32,
        )
      ]
]

unfoldable pub put_set : Store → ℕ → PathSet → ℕ → Store
put_set store key ps total = record {
  path_set = λ k. if k == key then some ps else store.path_set k;
  paths_cnt = total;
}

-- The set of a hash, as kh_put leaves it.
unfoldable pub set_of : Store → ℕ → PathSet
set_of store key = elim (store.path_set key) [
  | none ↦ record { paths = []; paths_cnt = 0 }
  | some ps ↦ ps
]

-- `none` is -1.
unfoldable pub get_path_id : Allocator → Store → StorePath → Option PathId × Store
get_path_id env store findme =
    let key : ℕ = hash findme.path in
    let (id, ps, total) = pathset_get_path_id env store.paths_cnt (set_of store key) findme in
    (
      if id == no_id then none else some (record { path_hash = key; path_id = id }),
      put_set store key ps total,
    )

-- The path has more than one segment, and the first is the AS number of the peer.
unfoldable pub peer_prepended : AsPath → ℕ → Bool
peer_prepended path peer_asn =
    ltb 0 path.data_len
    && (ltb 1 path.seg_cnt && (path.data_bytes 0 == seg_asn && word path.data_bytes 1 == peer_asn))

-- The path without its first segment, or the path itself.
unfoldable pub shallow : AsPath → ℕ → StorePath
shallow path peer_asn =
    if peer_prepended path peer_asn
    then record {
      is_core = true;
      idx = 0;
      path = record {
        data_bytes = λ i. path.data_bytes (i + 5);
        data_len = path.data_len - 5;
        data_alloc_len = external;
        seg_cnt = path.seg_cnt - 1;
        origin_offset = (path.origin_offset + 2 ^ 16 - 5) % 2 ^ 16;
      };
    }
    else record { is_core = false; idx = 0; path = path }

unfoldable pub store_get_path_id : Allocator → Store → Option AsPath → ℕ → Option PathId × Store
store_get_path_id env store none peer_asn =
    (some (record { path_hash = no_path_hash; path_id = no_id }), store)
store_get_path_id env store (some path) peer_asn = get_path_id env store (shallow path peer_asn)

unfoldable pub insert_path : Allocator → Store → Mem → ℕ → Bool → Option PathId × Store
insert_path env store path_data path_len is_core =
    get_path_id env store (record {
      is_core = is_core;
      idx = 0;
      path = populate_from_data_zc create path_data path_len;
    })

unfoldable pub get_store_path : Store → PathId → Option StorePath
get_store_path store id =
    if id.path_hash == no_path_hash && id.path_id == no_id
    then none
    else elim (store.path_set id.path_hash) [
      | none ↦ none
      | some ps ↦ if leb ps.paths_cnt id.path_id then none else get_elem? ps.paths id.path_id
    ]

-- `none` is the failure of malloc.
unfoldable pub path_get_path : Allocator → StorePath → ℕ → Option AsPath
path_get_path env sp peer_asn =
    if not sp.is_core
    then copy env.realloc create sp.path
    else elim (env.malloc ((sp.path.data_len + 5) % 2 ^ 16)) [
      | none ↦ none
      | some block ↦ some (
          update_fields (record (clear create) {
            data_alloc_len = (sp.path.data_len + 5) % 2 ^ 16;
            data_len = (sp.path.data_len + 5) % 2 ^ 16;
            data_bytes = λ i.
                if leb 5 i && ltb i (5 + sp.path.data_len)
                then sp.path.data_bytes (i - 5)
                else poke_word (poke block 0 seg_asn) 1 peer_asn i;
          }))
    ]
