-- ===== src/AsPath/Adds.antt =====
-- lib/utils/bgpstream_utils_as_path.c: what bgpstream_as_path_populate has added to a path.
use mathlib.Core.List.{append-nil}
use bgpstream.Base.{
  ℕ, suc, ◌+◌, ◌*◌, ◌%◌, ◌^◌, ◌<◌, ◌≡◌, refl, sym, ap, ◌∙◌, List, [], ◌∷◌, ◌++◌, map, arith, length,
  length-append,
}
use bgpstream.AsPath.{AsPath}
use bgpstream.AsPath.Memory.{Mem, poke, Holds, Holds-append, Holds-agree, poke-at, poke-other}
use bgpstream.AsPath.Segments.{
  Segment, asn, group, seg_bytes, words_bytes, path_bytes, seg_size, path_size, last_offset,
  length-path_bytes, path_size-append, path_bytes-append, last_offset-append,
}

-- From a path and an offset of its iterator to others, behind these segments.
pub record Adds (path path' : AsPath) (cur cur' : ℕ) (ss : List Segment) : Type 0 where
  pub holds : Holds path'.data_bytes cur (path_bytes ss)
  pub frame : (i : ℕ) → i < cur → path'.data_bytes i ≡ path.data_bytes i
  pub moved : cur' ≡ cur + path_size ss
  pub cnt : path'.seg_cnt ≡ path.seg_cnt + length ss
  pub origin : path'.origin_offset ≡ last_offset cur ss path.origin_offset

-- The loops over AS numbers leave the lengths of the buffer alone.
abbrev pub Same : AsPath → AsPath → Type 0
Same path path' = (path'.data_len ≡ path.data_len) × (path'.data_alloc_len ≡ path.data_alloc_len)

pub Adds-trans :
    (p q r : AsPath) (i j k : ℕ) (ss ts : List Segment)
    → Adds p q i j ss
    → Adds q r j k ts
    → Adds p r i k (ss ++ ts)
Adds-trans p q r i j k ss ts a b =
    let there : i + length (path_bytes ss) ≡ j = omega (arith, length-path_bytes ss, a.moved) in
    let kept =
      Holds-agree q.data_bytes r.data_bytes i (path_bytes ss) (λ x lo hi. b.frame x (omega arith))
        a.holds in
    let at : i + path_size ss ≡ j = sym a.moved in
    record {
      holds =
          rw (path_bytes-append ss ts)
            (Holds-append r.data_bytes i j (path_bytes ss) (path_bytes ts) there kept b.holds);
      frame = λ x lt. b.frame x (omega (arith, a.moved)) ∙ a.frame x lt;
      moved = omega (arith, a.moved, b.moved, path_size-append ss ts);
      cnt = omega (arith, a.cnt, b.cnt, length-append ss ts);
      origin =
          b.origin
          ∙ ap (last_offset j ts) a.origin
          ∙ ap (λ o. last_offset o ts (last_offset i ss p.origin_offset)) a.moved
          ∙ sym (last_offset-append i ss ts p.origin_offset);
    }

pub group-Adds :
    (path : AsPath) (cur kind : ℕ) (ns : List ℕ) (mem : Mem)
    → Holds mem (cur + 2) (words_bytes ns)
    → ((i : ℕ) → i < cur + 2 → mem i ≡ poke (poke path.data_bytes cur kind) (cur + 1) (length ns) i)
    → path.seg_cnt + 1 < 2 ^ 16
    → Adds path
        (record path {
          data_bytes = mem;
          origin_offset = cur;
          seg_cnt = (path.seg_cnt + 1) % 2 ^ 16;
        })
        cur
        (cur + path_size (group kind ns ∷ []))
        (group kind ns ∷ [])
unfolding path_bytes seg_bytes last_offset
group-Adds path cur kind ns mem words frame b =
    let head : Mem = poke path.data_bytes cur kind in
    let p : suc cur ≡ cur + 1 = omega arith in
    let q : suc (suc cur) ≡ cur + 2 = omega arith in
    let below = λ (i : ℕ) (lt : i < cur + 1).
      frame i (omega arith) ∙ poke-other head (cur + 1) (length ns) i (ground arith) in
    record {
      holds = rw append-nil (
          unfold Holds in
          (
            below cur (omega arith) ∙ poke-at path.data_bytes cur kind,
            (rw p (frame (cur + 1) (omega arith) ∙ poke-at head (cur + 1) (length ns)), rw q words),
          ));
      frame = λ i lt. below i (omega arith) ∙ poke-other path.data_bytes cur kind i (ground arith);
      moved = refl;
      cnt = omega arith;
      origin = refl;
    }

pub asns_size :
    (ns : List ℕ) → (path_size (map asn ns) ≡ 5 * length ns) × (length (map asn ns) ≡ length ns)
unfolding path_size seg_size seg_bytes
asns_size [] = (refl, refl)
asns_size (n ∷ ns) = let (a, b) = asns_size ns in (omega arith, omega arith)
