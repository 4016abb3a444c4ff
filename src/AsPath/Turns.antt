-- ===== src/AsPath/Turns.antt =====
-- bgpstream_as_path_populate of lib/utils/bgpstream_utils_as_path.c: its loop over the segments.
use mathlib.Core.Path.{subst}
use bgpstream.Base.{
  Option, none, some, ℕ, suc, ◌+◌, ◌*◌, ◌^◌, ◌≤◌, ◌<◌, ◌≡◌, ◌⊎◌, inl, inr, refl, sym, ap, ◌∙◌, true,
  false, List, [], ◌∷◌, ◌++◌, arith, ltb, ◌==◌, length, length-append, All, Bool-cases,
}
use bgpstream.AsPath.{AsPath, Realloc, reserve, external}
use bgpstream.AsPath.Memory.{Mem, Holds, Holds-split}
use bgpstream.AsPath.Segments.{
  Segment, seg_bytes, path_bytes, seg_size, path_size, last_offset, length-words_bytes,
  path_size-append,
}
use bgpstream.AsPath.Populate.{
  Attribute, add_seg, len_with, populate_loop, is_known, as_sequence, as_header_size,
}
use bgpstream.AsPath.Message.{Part, asns_bytes, message, IsPart, part_segs, segs_of}
use bgpstream.AsPath.Adds.{Adds, Adds-trans, asns_size}
use bgpstream.AsPath.Parts.{length-asns_bytes, add_seg-Adds}

-- Memory is never short, and a block that grows keeps its bytes.
pub record Works (realloc : Realloc) : Type 0 where
  pub grows :
      (bytes : Mem) (old len : ℕ)
      → (bytes' : Mem) × (realloc bytes old len ≡ some bytes')
        × ((i : ℕ) → i < old → i < len → bytes' i ≡ bytes i)

pub reserve-keeps :
    (realloc : Realloc) (len : ℕ) (path : AsPath)
    → Works realloc
    → (own : AsPath) × (reserve realloc len path ≡ some own)
      × ((i : ℕ) → i < path.data_alloc_len → own.data_bytes i ≡ path.data_bytes i)
      × (len ≤ own.data_alloc_len)
      × (own.seg_cnt ≡ path.seg_cnt)
      × (own.origin_offset ≡ path.origin_offset)
unfolding reserve
reserve-keeps realloc len path works = elim (Bool-cases (ltb path.data_alloc_len len)) [
  | inl small ↦
      let (bytes, e, keeps) = works.grows path.data_bytes path.data_alloc_len len in
      rw (reserve, small, e)
        (
          record path { data_bytes = bytes; data_alloc_len = len },
          refl,
          λ i lt. keeps i lt (ground arith),
          omega arith,
          refl,
          refl,
        )
  | inr large ↦ rw (reserve, large) (path, refl, λ i lt. refl, ground arith, refl, refl)
]

unfoldable alloc_len_of : Option AsPath → ℕ
alloc_len_of none = 0
alloc_len_of (some path) = path.data_alloc_len

-- A path that owns its memory still does.
reserve-owned :
    (realloc : Realloc) (len : ℕ) (path own : AsPath)
    → Works realloc
    → reserve realloc len path ≡ some own
    → path.data_alloc_len < external
    → len < external
    → own.data_alloc_len < external
unfolding reserve alloc_len_of
reserve-owned realloc len path own works e own_it short =
    elim (Bool-cases (ltb path.data_alloc_len len)) [
      | inl small ↦
          let (bytes, grown, keeps) = works.grows path.data_bytes path.data_alloc_len len in
          let at : len ≡ own.data_alloc_len = ap alloc_len_of (rw (small, grown) at e) in
          omega arith
      | inr large ↦
          let at : path.data_alloc_len ≡ own.data_alloc_len = ap alloc_len_of (rw large at e) in
          omega arith
    ]

pub part_size : ℕ → Part → ℕ
part_size asn_len p = length p.asns * asn_len + 2

pub len_with_part :
    (attr : Attribute) (ptr : ℕ) (p : Part) (path : AsPath)
    → attr.data_bytes ptr ≡ p.kind
    → attr.data_bytes (ptr + 1) ≡ length p.asns
    → len_with attr ptr path ≡ path.data_len + path_size (part_segs p)
unfolding len_with part_segs
len_with_part attr ptr p path k n = elim (Bool-cases (p.kind == as_sequence)) [
  | inl seq ↦ rw (len_with, k, n, seq) (omega (arith, (asns_size p.asns).0))
  | inr other ↦
      rw (len_with, k, n, other)
        (unfold path_size seg_size seg_bytes in omega (arith, length-words_bytes p.asns))
]

pub known_kind :
    (asn_len kind : ℕ) (p : Part) → kind ≡ p.kind → IsPart asn_len p → is_known kind ≡ true
unfolding is_known IsPart
known_kind asn_len kind p k (lo, hi, _, _) = ground arith

pub Adds-from :
    (p p' q : AsPath) (cur cur' : ℕ) (ss : List Segment)
    → ((i : ℕ) → i < cur → p'.data_bytes i ≡ p.data_bytes i)
    → p'.seg_cnt ≡ p.seg_cnt
    → p'.origin_offset ≡ p.origin_offset
    → Adds p' q cur cur' ss
    → Adds p q cur cur' ss
Adds-from p p' q cur cur' ss keeps cnt origin a = record {
  holds = a.holds;
  frame = λ i lt. a.frame i lt ∙ keeps i lt;
  moved = a.moved;
  cnt = a.cnt ∙ ap (λ k. k + length ss) cnt;
  origin = a.origin ∙ ap (last_offset cur ss) origin;
}

module _ (realloc : Realloc) (works : Works realloc) (attr : Attribute)
    (known : (attr.asn_len ≡ 2) ⊎ (attr.asn_len ≡ 4)) where
  pub turn-runs :
      (turns ptr : ℕ) (path own path' : AsPath) (cur' : ℕ)
      → ptr < attr.len
      → is_known (attr.data_bytes ptr) ≡ true
      → ptr + (attr.data_bytes (ptr + 1) * attr.asn_len + as_header_size) ≤ attr.len
      → len_with attr ptr path < 65535
      → reserve realloc (len_with attr ptr path) path ≡ some own
      → add_seg attr ptr
          (len_with attr ptr path)
          (record own { data_len = len_with attr ptr path })
          path.data_len
        ≡ some (path', cur')
      → populate_loop (suc turns) realloc attr ptr path path.data_len
        ≡ populate_loop turns realloc attr
            (ptr + (attr.data_bytes (ptr + 1) * attr.asn_len + as_header_size))
            path'
            cur'
  unfolding populate_loop
  turn-runs turns ptr path own path' cur' inside kind room short e run =
      let more : ltb ptr attr.len ≡ true = ground arith in
      let within : ltb attr.len (ptr + (attr.data_bytes (ptr + 1) * attr.asn_len + as_header_size))
          ≡ false =
        ground arith in
      let fits : ltb (len_with attr ptr path) 65535 ≡ true = ground arith in
      rw (populate_loop, more, kind, within, fits, e, run) refl

  -- One turn of the loop.
  pub turn-Adds :
      (p : Part) (turns ptr : ℕ) (path : AsPath)
      → IsPart attr.asn_len p
      → Holds attr.data_bytes ptr (p.kind ∷ length p.asns ∷ asns_bytes attr.asn_len p.asns)
      → ptr + part_size attr.asn_len p ≤ attr.len
      → path.data_len ≤ path.data_alloc_len
      → path.data_len + path_size (part_segs p) < 65535
      → path.seg_cnt + length (part_segs p) < 2 ^ 16
      → (path' : AsPath) × (populate_loop (suc turns) realloc attr ptr path path.data_len
          ≡ populate_loop turns realloc attr (ptr + part_size attr.asn_len p) path' path'.data_len)
        × Adds path path' path.data_len path'.data_len (part_segs p)
        × (path'.data_len ≤ path'.data_alloc_len)
        × (path.data_alloc_len < external → path'.data_alloc_len < external)
  unfolding part_size Holds
  turn-Adds p turns ptr path i (k, (n, rest)) room owned b c =
      let q : suc ptr ≡ ptr + 1 = omega arith in
      let count : attr.data_bytes (ptr + 1) ≡ length p.asns = rw q at n in
      let new_len = len_with attr ptr path in
      let grown = len_with_part attr ptr p path k count in
      let (own, e, keeps, large, cnt, origin) = reserve-keeps realloc new_len path works in
      let start : AsPath = record own { data_len = new_len } in
      let (path', run, adds, same) =
        add_seg-Adds attr known p ptr new_len start path.data_len i (k, (n, rest)) grown
          (omega arith) (omega (arith, cnt)) in
      let step : attr.data_bytes (ptr + 1) * attr.asn_len ≡ length p.asns * attr.asn_len =
        ap (λ c. c * attr.asn_len) count in
      let end : ptr + (attr.data_bytes (ptr + 1) * attr.asn_len + as_header_size)
          ≡ ptr + part_size attr.asn_len p =
        unfold part_size in omega (arith, step) in
      let runs =
        turn-runs turns ptr path own path' new_len (ground arith)
          (known_kind attr.asn_len (attr.data_bytes ptr) p k i) (omega (arith, end))
          (omega (arith, grown)) e run in
      (
        path',
        runs
            ∙ ap (λ o. populate_loop turns realloc attr o path' new_len) end
            ∙ ap (populate_loop turns realloc attr _ path') (sym same.0),
        subst (λ o. Adds path path' path.data_len o (part_segs p)) (sym same.0)
            (Adds-from path start path' path.data_len new_len (part_segs p)
              (λ i' lt. keeps i' (omega arith)) cnt origin adds),
        omega (arith, same.0, same.1),
        λ own_it.
            let still =
              reserve-owned realloc new_len path own works e own_it (omega (arith, grown)) in
            omega (arith, same.1, still),
      )

  -- The segments of the message are read one after the other.
  pub turns-Adds :
      (ps : List Part) (turns ptr : ℕ) (path : AsPath)
      → All (IsPart attr.asn_len) ps
      → Holds attr.data_bytes ptr (message attr.asn_len ps)
      → ptr + length (message attr.asn_len ps) ≤ attr.len
      → path.data_len ≤ path.data_alloc_len
      → path.data_len + path_size (segs_of ps) < 65535
      → path.seg_cnt + length (segs_of ps) < 2 ^ 16
      → (path' : AsPath) × (populate_loop (length ps + turns) realloc attr ptr path path.data_len
          ≡ populate_loop turns realloc attr
              (ptr + length (message attr.asn_len ps))
              path'
              path'.data_len)
        × Adds path path' path.data_len path'.data_len (segs_of ps)
        × (path'.data_len ≤ path'.data_alloc_len)
        × (path.data_alloc_len < external → path'.data_alloc_len < external)
  unfolding message segs_of
  turns-Adds [] turns ptr path i h room owned b c = (
    path,
    let z : 0 + turns ≡ turns = omega arith in
        let w : ptr + 0 ≡ ptr = omega arith in rw (z, w) refl,
    record {
      holds = unfold Holds path_bytes in tt;
      frame = λ i lt. refl;
      moved = unfold path_size in omega arith;
      cnt = omega arith;
      origin = unfold last_offset in refl;
    },
    owned,
    λ own_it. own_it,
  )
  turns-Adds (p ∷ ps) turns ptr path (i, is) h room owned b c =
      let own : List ℕ = p.kind ∷ length p.asns ∷ asns_bytes attr.asn_len p.asns in
      let size : length own ≡ part_size attr.asn_len p =
        unfold part_size in omega (arith, length-asns_bytes attr known p.asns) in
      let total : length (own ++ message attr.asn_len ps)
          ≡ part_size attr.asn_len p + length (message attr.asn_len ps) =
        omega (arith, size, length-append own (message attr.asn_len ps)) in
      let (here, rest) =
        Holds-split attr.data_bytes ptr (ptr + part_size attr.asn_len p) own
          (message attr.asn_len ps) (omega (arith, size)) h in
      let segs = path_size-append (part_segs p) (segs_of ps) in
      let count = length-append (part_segs p) (segs_of ps) in
      let (next, run, adds, room', still) =
        turn-Adds p (length ps + turns) ptr path i here (omega (arith, total)) owned
          (omega (arith, segs)) (omega (arith, count)) in
      let (path', runs, more, done, stays) =
        turns-Adds ps turns (ptr + part_size attr.asn_len p) next is rest (omega (arith, total))
          room' (omega (arith, segs, adds.moved)) (omega (arith, count, adds.cnt)) in
      let fuel : length (p ∷ ps) + turns ≡ suc (length ps + turns) = omega arith in
      let at : ptr + part_size attr.asn_len p + length (message attr.asn_len ps)
          ≡ ptr + length (own ++ message attr.asn_len ps) =
        omega (arith, total) in
      (
        path',
        rw fuel (run ∙ runs) ∙ ap (λ o. populate_loop turns realloc attr o path' path'.data_len) at,
        Adds-trans path next path' _ _ _ (part_segs p) (segs_of ps) adds more,
        done,
        λ own_it. stays (still own_it),
      )
