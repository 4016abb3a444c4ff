-- ===== src/AsPath/Stored.antt =====
-- lib/utils/bgpstream_utils_as_path_store.c: the ids of the paths in the store.
use mathlib.Core.Path.{subst}
use bgpstream.Base.{
  ℕ, ◌≤◌, ◌<◌, ◌≡◌, inl, inr, refl, sym, ap, Bool, true, false, ◌&&◌, none, some, List, arith, leb,
  ◌==◌, if◌then◌else◌, length, All, Bool-cases, Option-cases, get_elem?, take,
}
use bgpstream.AsPath.{AsPath, equal, hash}
use bgpstream.AsPath.Segments.{Segment, IsPath}
use bgpstream.AsPath.Store.{
  StorePath, PathSet, Store, PathId, no_id, no_path_hash, Allocator, find_path, pathset_get_path_id,
  put_set, set_of, get_path_id, shallow, store_get_path_id, get_store_path, path_get_path,
}
use bgpstream.AsPath.Shallow.{IsPath-equal, shallow-Kept}
use bgpstream.AsPath.Restored.{Kept-other, IsRoomy, restore}
use bgpstream.AsPath.Finding.{IsStored, IsCounted, pathset-HasId}

-- Each set counts its paths, and each of these is well-formed.
pub record IsStore (store : Store) : Type 0 where
  pub counted :
      (key : ℕ) (ps : PathSet) → store.path_set key ≡ some ps → ps.paths_cnt ≡ length ps.paths
  pub stored :
      (key : ℕ) (ps : PathSet)
      → store.path_set key ≡ some ps
      → All (λ sp. (cs : List Segment) × IsPath sp.path cs) ps.paths

set_of-IsCounted : (store : Store) (key : ℕ) → IsStore store → IsCounted (set_of store key)
unfolding set_of IsCounted
set_of-IsCounted store key s = elim (Option-cases (store.path_set key)) [
  | inl e ↦ rw (set_of, e) (refl, tt)
  | inr (ps, e) ↦ rw (set_of, e) (s.counted key ps e, s.stored key ps e)
]

put_set-IsStore :
    (store : Store) (key : ℕ) (ps : PathSet) (total : ℕ)
    → IsStore store
    → IsCounted ps
    → IsStore (put_set store key ps total)
unfolding put_set IsCounted
put_set-IsStore store key ps total s (c, all) = record {
  counted = λ k qs e. elim (Bool-cases (k == key)) [
    | inl own ↦ let same : ps ≡ qs = cc (rw own at e) in rw (sym same) c
    | inr other ↦ s.counted k qs (rw other at e)
  ];
  stored = λ k qs e. elim (Bool-cases (k == key)) [
    | inl own ↦ let same : ps ≡ qs = cc (rw own at e) in subst (λ t. All IsStored t.paths) same all
    | inr other ↦ s.stored k qs (rw other at e)
  ];
}

and_false : (a : Bool) → (a && false) ≡ false
and_false true = refl
and_false false = refl

-- What an id refers to.
get_store_path-put :
    (store : Store) (key : ℕ) (ps : PathSet) (total id : ℕ) (sp : StorePath)
    → id < no_id
    → id < ps.paths_cnt
    → get_elem? ps.paths id ≡ some sp
    → get_store_path (put_set store key ps total) (record { path_hash = key; path_id = id })
      ≡ some sp
unfolding get_store_path put_set
get_store_path-put store key ps total id sp short below e =
    let real : (id == no_id) ≡ false = ground arith in
    let own : (key == key) ≡ true = ground arith in
    let within : leb ps.paths_cnt id ≡ false = ground arith in
    rw (get_store_path, real, and_false (key == no_path_hash), own, within) e

pick-kept :
    (qs ps : PathSet) (i : ℕ) (x : StorePath)
    → qs.paths_cnt ≤ ps.paths_cnt
    → ((j : ℕ) (y : StorePath) → get_elem? qs.paths j ≡ some y → get_elem? ps.paths j ≡ some y)
    → (if leb qs.paths_cnt i then none else get_elem? qs.paths i) ≡ some x
    → (if leb ps.paths_cnt i then none else get_elem? ps.paths i) ≡ some x
pick-kept qs ps i x more kept e = elim (Bool-cases (leb qs.paths_cnt i)) [
  | inl out ↦ absurd (cc (rw out at e))
  | inr below ↦
      let still : leb ps.paths_cnt i ≡ false = ground arith in rw still (kept i x (rw below at e))
]

-- An id keeps its path where the set of a hash only grows.
kept-put :
    (store : Store) (key : ℕ) (ps : PathSet) (total : ℕ) (id : PathId) (x : StorePath)
    → (set_of store key).paths_cnt ≤ ps.paths_cnt
    → ((j : ℕ) (y : StorePath)
        → get_elem? (set_of store key).paths j ≡ some y
        → get_elem? ps.paths j ≡ some y)
    → get_store_path store id ≡ some x
    → get_store_path (put_set store key ps total) id ≡ some x
unfolding get_store_path put_set set_of
kept-put store key ps total id x more kept e =
    elim (Bool-cases (id.path_hash == no_path_hash && id.path_id == no_id)) [
      | inl special ↦ absurd (cc (rw special at e))
      | inr real ↦ elim (Bool-cases (id.path_hash == key)) [
        | inr other ↦ rw (get_store_path, real, other) (rw real at e)
        | inl own ↦
            let at : id.path_hash ≡ key = ground arith in
            elim (Option-cases (store.path_set key)) [
              | inl gone ↦ absurd (cc (rw (get_store_path, real, at, gone) at e))
              | inr (qs, f) ↦
                  let same : set_of store key ≡ qs = unfold set_of in rw (set_of, f) refl in
                  let old = rw (get_store_path, real, at, f) at e in
                  let new =
                    pick-kept qs ps id.path_id x (rw same at more)
                      (λ j y h. kept j y (rw (sym same) at h)) old in
                  rw (get_store_path, real, own) new
            ]
      ]
    ]

set_of-put :
    (store : Store) (key : ℕ) (ps : PathSet) (total : ℕ)
    → set_of (put_set store key ps total) key ≡ ps
unfolding set_of put_set
set_of-put store key ps total =
    let own : (key == key) ≡ true = ground arith in rw (set_of, own) refl

get_path_id-run :
    (env : Allocator) (store : Store) (findme : StorePath) (id : ℕ) (ps : PathSet) (total : ℕ)
    → pathset_get_path_id env store.paths_cnt (set_of store (hash findme.path)) findme
      ≡ (id, ps, total)
    → id < no_id
    → get_path_id env store findme ≡ (
      some (record { path_hash = hash findme.path; path_id = id }),
      put_set store (hash findme.path) ps total,
    )
unfolding get_path_id
get_path_id-run env store findme id ps total e short =
    let real : (id == no_id) ≡ false = ground arith in rw (get_path_id, e, real) refl

found-run :
    (env : Allocator) (total : ℕ) (ps : PathSet) (findme : StorePath) (id : ℕ)
    → find_path (take ps.paths_cnt ps.paths) 0 findme ≡ some id
    → pathset_get_path_id env total ps findme ≡ (id, ps, total)
unfolding pathset_get_path_id
found-run env total ps findme id e = rw (pathset_get_path_id, e) refl

again-run :
    (env : Allocator) (store : Store) (findme : StorePath) (ps : PathSet) (id : ℕ)
    → find_path (take ps.paths_cnt ps.paths) 0 findme ≡ some id
    → set_of store (hash findme.path) ≡ ps
    → id < no_id
    → (get_path_id env store findme).0
      ≡ some (record { path_hash = hash findme.path; path_id = id })
again-run env store findme ps id e own short =
    let found =
      found-run env store.paths_cnt (set_of store (hash findme.path)) findme id
        (rw (sym own) at e) in
    ap (λ t. t.0) (get_path_id-run env store findme id _ store.paths_cnt found short)

-- With memory to spare and a store of well-formed paths with less than 65535 paths to a hash, a
-- well-formed path gets an id: the store stays well-formed, and what its ids refer to stays; the id
-- gives back a path equal to the one that was put in, for the same peer; and the path gets the same id
-- when it is put in again.
pub store_get_path_id-restores :
    (env : Allocator) (store : Store) (path : AsPath) (peer : ℕ) (ss : List Segment)
    → IsRoomy env
    → IsStore store
    → ((key : ℕ) (ps : PathSet) → store.path_set key ≡ some ps → ps.paths_cnt < no_id)
    → IsPath path ss
    → (id : PathId) × (store' : Store) × (sp : StorePath) × (path' : AsPath) × (store_get_path_id
          env store
          (some path)
          peer
        ≡ (some id, store'))
      × (get_store_path store' id ≡ some sp)
      × (path_get_path env sp peer ≡ some path')
      × (equal path' path ≡ true)
      × IsPath path' ss
      × IsStore store'
      × ((old : PathId) (x : StorePath)
          → get_store_path store old ≡ some x
          → get_store_path store' old ≡ some x)
      × ((store_get_path_id env store' (some path) peer).0 ≡ some id)
unfolding store_get_path_id
store_get_path_id-restores env store path peer ss r s room p =
    let findme = shallow path peer in
    let key = hash findme.path in
    let (cs, q, other) = Kept-other peer ss findme (shallow-Kept path peer ss p) in
    let (id, ps, total, run, h) =
      pathset-HasId env store.paths_cnt (set_of store key) findme cs r
        (set_of-IsCounted store key s) q (set_of_room store key room) in
    let (path', back, p') = restore env peer ss h.sp r p.short (other h.sp h.same_kind h.is_path) in
    (
      record { path_hash = key; path_id = id },
      put_set store key ps total,
      h.sp,
      path',
      get_path_id-run env store findme id ps total run h.short,
      get_store_path-put store key ps total id h.sp h.short h.below h.at,
      back,
      IsPath-equal path' path ss p' p,
      p',
      put_set-IsStore store key ps total s h.counted,
      λ old x. kept-put store key ps total old x h.more h.kept,
      again-run env (put_set store key ps total) findme ps id h.again
          (set_of-put store key ps total) h.short,
    )
  where
    set_of_room :
        (store : Store) (key : ℕ)
        → ((k : ℕ) (ps : PathSet) → store.path_set k ≡ some ps → ps.paths_cnt < no_id)
        → (set_of store key).paths_cnt < no_id
    set_of_room store key room = elim (Option-cases (store.path_set key)) [
      | inl e ↦ unfold set_of in rw (set_of, e) (omega arith)
      | inr (ps, e) ↦ unfold set_of in rw (set_of, e) (room key ps e)
    ]
