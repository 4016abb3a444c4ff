-- ===== src/AsPath/Finding.antt =====
-- lib/utils/bgpstream_utils_as_path_store.c: the search for a path in the set of its hash.
use mathlib.Core.Path.{subst}
use bgpstream.Base.{
  ℕ, zero, suc, ◌+◌, ◌%◌, ◌^◌, ◌≤◌, ◌<◌, ◌≡◌, inl, inr, refl, sym, ap, ◌∙◌, Bool, true, false, none,
  some, List, [], ◌∷◌, ◌++◌, arith, length, length-append, All, Bool-cases, Option-cases, get_elem?,
  take,
}
use bgpstream.AsPath.{equal}
use bgpstream.AsPath.Memory.{memcpy, Holds-agree}
use bgpstream.AsPath.Segments.{Segment, path_bytes, IsPath, length-path_bytes}
use bgpstream.AsPath.Store.{
  StorePath, PathSet, no_id, Allocator, store_path_dup, same_core, store_path_equal, find_path,
  pathset_get_path_id,
}
use bgpstream.AsPath.Message.{All-append}
use bgpstream.AsPath.Shallow.{IsPath-equal, equal-segments}
use bgpstream.AsPath.Restored.{IsRoomy}

abbrev pub IsStored : StorePath → Type 0
IsStored sp = (cs : List Segment) × IsPath sp.path cs

pub take_all {ℓ} : {A : Type ℓ} (xs : List A) → take (length xs) xs ≡ xs
take_all [] = refl
take_all (x ∷ xs) = ap (λ l. x ∷ l) (take_all xs)

pub get-append {ℓ} :
    {A : Type ℓ} (xs : List A) (y : A) → get_elem? (xs ++ y ∷ []) (length xs) ≡ some y
get-append [] y = refl
get-append (x ∷ xs) y = get-append xs y

pub get_append_front {ℓ} :
    {A : Type ℓ} (xs ys : List A) (i : ℕ) {x : A}
    → get_elem? xs i ≡ some x
    → get_elem? (xs ++ ys) i ≡ some x
get_append_front [] ys i e = absurd (cc e)
get_append_front (x ∷ xs) ys zero e = e
get_append_front (x ∷ xs) ys (suc i) e = get_append_front xs ys i e

pub All-get {ℓ κ} :
    {A : Type ℓ} (P : A → Type κ) (xs : List A) (i : ℕ) (x : A)
    → All P xs
    → get_elem? xs i ≡ some x
    → P x
All-get P [] i x h e = absurd (cc e)
All-get P (y ∷ xs) zero x (h, hs) e = let same : y ≡ x = cc e in subst P same h
All-get P (y ∷ xs) (suc i) x (h, hs) e = All-get P xs i x hs e

-- The search finds a path that is equal to the one looked for.
pub find_path-some :
    (l : List StorePath) (i j : ℕ) (findme : StorePath)
    → find_path l i findme ≡ some j
    → (k : ℕ) × (sp : StorePath) × (j ≡ i + k)
      × (k < length l)
      × (get_elem? l k ≡ some sp)
      × (store_path_equal sp findme ≡ true)
unfolding find_path
find_path-some [] i j findme e = absurd (cc e)
find_path-some (sp ∷ l) i j findme e = elim (Bool-cases (store_path_equal sp findme)) [
  | inl here ↦ (0, sp, (let at : i ≡ j = ground arith in omega arith), omega arith, refl, here)
  | inr other ↦
      let (k, found, at, lt, get, same) = find_path-some l (i + 1) j findme (rw other at e) in
      (suc k, found, omega arith, omega arith, get, same)
]

pub find_path-none :
    (l : List StorePath) (i : ℕ) (findme sp : StorePath)
    → find_path l i findme ≡ none
    → store_path_equal sp findme ≡ true
    → find_path (l ++ sp ∷ []) i findme ≡ some (i + length l)
unfolding find_path
find_path-none [] i findme sp e same = rw (find_path, same) (ap some (omega arith))
find_path-none (x ∷ l) i findme sp e same = elim (Bool-cases (store_path_equal x findme)) [
  | inl here ↦ absurd (ground arith)
  | inr other ↦
      let rest = find_path-none l (i + 1) findme sp (rw other at e) same in
      let at : i + 1 + length l ≡ i + suc (length l) = omega arith in
      rw (find_path, other) (rest ∙ ap some at)
]

unfoldable pub IsCounted : PathSet → Type 0
IsCounted ps = (ps.paths_cnt ≡ length ps.paths) × All IsStored ps.paths

-- A set with an id for the path: the path at the id, what was there before, and the id that the next
-- search gives.
pub record HasId (ps ps' : PathSet) (findme : StorePath) (cs : List Segment) (id : ℕ) : Type 0 where
  pub sp : StorePath
  pub at : get_elem? ps'.paths id ≡ some sp
  pub below : id < ps'.paths_cnt
  pub short : id < no_id
  pub same_kind : sp.is_core ≡ findme.is_core
  pub is_path : IsPath sp.path cs
  pub counted : IsCounted ps'
  pub more : ps.paths_cnt ≤ ps'.paths_cnt
  pub kept :
      (j : ℕ) (x : StorePath) → get_elem? ps.paths j ≡ some x → get_elem? ps'.paths j ≡ some x
  pub again : find_path (take ps'.paths_cnt ps'.paths) 0 findme ≡ some id

pub same_core_lem : (a b : Bool) → same_core a b ≡ true → a ≡ b
unfolding same_core
same_core_lem true b e = sym e
same_core_lem false true e = absurd (cc e)
same_core_lem false false e = refl

pub same_core_refl : (a : Bool) → same_core a a ≡ true
unfolding same_core
same_core_refl true = refl
same_core_refl false = refl

pub found-HasId :
    (ps : PathSet) (findme : StorePath) (cs : List Segment) (j : ℕ)
    → IsCounted ps
    → IsPath findme.path cs
    → ps.paths_cnt < no_id
    → find_path (take ps.paths_cnt ps.paths) 0 findme ≡ some j
    → HasId ps ps findme cs j
unfolding IsCounted store_path_equal
found-HasId ps findme cs j (c, all) p short e =
    let whole_list : take ps.paths_cnt ps.paths ≡ ps.paths = rw c (take_all ps.paths) in
    let (k, sp, at, lt, get, same) = find_path-some ps.paths 0 j findme (rw whole_list at e) in
    let index : j ≡ k = omega arith in
    let kind : same_core sp.is_core findme.is_core ≡ true = ground arith in
    let equals : equal sp.path findme.path ≡ true = ground arith in
    let (ds, q) = All-get IsStored ps.paths k sp all get in
    let segs : ds ≡ cs = equal-segments sp.path findme.path ds cs q p equals in
    record {
      sp = sp;
      at = rw index get;
      below = omega arith;
      short = omega arith;
      same_kind = same_core_lem sp.is_core findme.is_core kind;
      is_path = rw segs at q;
      counted = (c, all);
      more = omega arith;
      kept = λ i x h. h;
      again = e;
    }

-- The copy that the store makes.
pub dup-IsPath :
    (env : Allocator) (src : StorePath) (cs : List Segment)
    → IsRoomy env
    → IsPath src.path cs
    → (sp : StorePath) × (store_path_dup env src ≡ some sp)
      × (sp.is_core ≡ src.is_core)
      × IsPath sp.path cs
unfolding store_path_dup
dup-IsPath env src cs r p =
    let (block, e) = r.block src.path.data_len in
    rw (store_path_dup, e)
      (
        record src {
          path = record src.path {
            data_bytes = memcpy block src.path.data_bytes src.path.data_len;
            data_alloc_len = src.path.data_len;
          };
        },
        refl,
        refl,
        record {
          bytes_of =
              Holds-agree src.path.data_bytes _ 0 (path_bytes cs)
                (λ i lo hi. unfold memcpy in ground (arith, length-path_bytes cs, p.len))
                p.bytes_of;
          len = p.len;
          short = p.short;
          fits = p.fits;
          cnt = p.cnt;
          origin = p.origin;
        },
      )

pub new-HasId :
    (ps : PathSet) (findme sp : StorePath) (cs : List Segment)
    → IsCounted ps
    → IsPath findme.path cs
    → ps.paths_cnt < no_id
    → find_path (take ps.paths_cnt ps.paths) 0 findme ≡ none
    → sp.is_core ≡ findme.is_core
    → IsPath sp.path cs
    → HasId ps
        (record {
          paths = take ps.paths_cnt ps.paths ++ sp ∷ [];
          paths_cnt = (ps.paths_cnt + 1) % 2 ^ 16;
        })
        findme
        cs
        ps.paths_cnt
unfolding IsCounted store_path_equal
new-HasId ps findme sp cs (c, all) p short e kind q =
    let whole_list : take ps.paths_cnt ps.paths ≡ ps.paths = rw c (take_all ps.paths) in
    let next : (ps.paths_cnt + 1) % 2 ^ 16 ≡ length (ps.paths ++ sp ∷ []) =
      omega (arith, length-append ps.paths (sp ∷ [])) in
    let same : store_path_equal sp findme ≡ true =
      rw (kind, same_core_refl findme.is_core) (IsPath-equal sp.path findme.path cs q p) in
    rw (whole_list, next)
      (record {
        sp = sp;
        at = rw c (get-append ps.paths sp);
        below = omega (arith, length-append ps.paths (sp ∷ []));
        short = short;
        same_kind = kind;
        is_path = q;
        counted = (refl, all_new);
        more = omega (arith, length-append ps.paths (sp ∷ []));
        kept = λ i x h. get_append_front ps.paths (sp ∷ []) i h;
        again =
            rw (take_all (ps.paths ++ sp ∷ [])) (
              find_path-none ps.paths 0 findme sp (rw whole_list at e) same
              ∙ ap some (omega arith));
      })
  where
    all_new : All IsStored (ps.paths ++ sp ∷ [])
    all_new = All-append IsStored ps.paths (sp ∷ []) all ((cs, q), tt)

pub pathset-HasId :
    (env : Allocator) (total : ℕ) (ps : PathSet) (findme : StorePath) (cs : List Segment)
    → IsRoomy env
    → IsCounted ps
    → IsPath findme.path cs
    → ps.paths_cnt < no_id
    → (id : ℕ) × (ps' : PathSet) × (total' : ℕ) × (pathset_get_path_id env total ps findme
        ≡ (id, ps', total'))
      × HasId ps ps' findme cs id
unfolding pathset_get_path_id
pathset-HasId env total ps findme cs r c p short =
    elim (Option-cases (find_path (take ps.paths_cnt ps.paths) 0 findme)) [
      | inr (j, e) ↦
          (j, ps, total, rw (pathset_get_path_id, e) refl, found-HasId ps findme cs j c p short e)
      | inl e ↦
          let (sp, d, kind, q) = dup-IsPath env (record findme { idx = total }) cs r p in
          let room = r.room (ps.paths_cnt + 1) in
          (
            ps.paths_cnt,
            record {
              paths = take ps.paths_cnt ps.paths ++ sp ∷ [];
              paths_cnt = (ps.paths_cnt + 1) % 2 ^ 16;
            },
            (total + 1) % 2 ^ 32,
            rw (pathset_get_path_id, e, room, d) refl,
            new-HasId ps findme sp cs c p short e kind q,
          )
    ]
