-- ===== src/AsPath/Parts.antt =====
-- bgpstream_as_path_populate of lib/utils/bgpstream_utils_as_path.c: one segment of the message.
use bgpstream.Base.{
  ℕ, suc, ◌+◌, ◌*◌, ◌%◌, ◌^◌, ◌<◌, ◌≡◌, ◌⊎◌, inl, inr, refl, sym, ap, ◌∙◌, some, List, [], ◌∷◌, map,
  arith, ◌==◌, if◌then◌else◌, length, length-append, All, Bool-cases,
}
use bgpstream.AsPath.{AsPath, seg_asn}
use bgpstream.AsPath.Memory.{
  Mem, poke, poke_word, Holds, Holds-split, Holds-append, Holds-agree, poke-at, poke-other,
  poke_word-Holds, poke_word-below,
}
use bgpstream.AsPath.Segments.{
  asn, group, seg_bytes, words_bytes, path_bytes, seg_size, path_size, last_offset,
}
use bgpstream.AsPath.Populate.{
  Attribute, read_asn, sequence_loop, set_loop, add_seg, seg_type, as_sequence,
}
use bgpstream.AsPath.Message.{Part, asn_bytes, asns_bytes, IsPart, part_segs}
use bgpstream.AsPath.Adds.{Adds, Same, Adds-trans, group-Adds, asns_size}

module _ (attr : Attribute) (known : (attr.asn_len ≡ 2) ⊎ (attr.asn_len ≡ 4)) where
  length-asn_bytes : (n : ℕ) → length (asn_bytes attr.asn_len n) ≡ attr.asn_len
  unfolding asn_bytes
  length-asn_bytes n = ground arith

  pub length-asns_bytes :
      (ns : List ℕ) → length (asns_bytes attr.asn_len ns) ≡ length ns * attr.asn_len
  unfolding asns_bytes
  length-asns_bytes [] = omega arith
  length-asns_bytes (n ∷ ns) = grind (
    arith,
    length-append (asn_bytes attr.asn_len n) (asns_bytes attr.asn_len ns),
    length-asn_bytes n,
    length-asns_bytes ns,
  )

  pub read_asn-Holds :
      (ptr n : ℕ)
      → n < (if attr.asn_len == 2 then 2 ^ 16 else 2 ^ 32)
      → Holds attr.data_bytes ptr (asn_bytes attr.asn_len n)
      → read_asn attr ptr ≡ some n
  unfolding read_asn asn_bytes Holds
  read_asn-Holds ptr n b h =
      let q : suc ptr ≡ ptr + 1 = omega arith in
      let r : suc (suc ptr) ≡ ptr + 2 = omega arith in
      let t : suc (suc (suc ptr)) ≡ ptr + 3 = omega arith in
      elim known [
        | inl two ↦
            let bound : n < 2 ^ 16 = rw two at b in
            let (x, (y, _)) = rw two at h in rw two (ap some (omega (arith, x, rw q at y)))
        | inr four ↦
            let bound : n < 2 ^ 32 = rw four at b in
            let (x, (y, (z, (w, _)))) = rw four at h in
            rw four (ap some (omega (arith, x, rw q at y, rw r at z, rw t at w)))
      ]

  -- One AS number of a sequence.
  pub one-Adds :
      (path : AsPath) (cur n : ℕ)
      → path.seg_cnt + 1 < 2 ^ 16
      → Adds path
          (record path {
            data_bytes = poke_word (poke path.data_bytes cur seg_asn) (cur + 1) n;
            origin_offset = cur;
            seg_cnt = (path.seg_cnt + 1) % 2 ^ 16;
          })
          cur
          (cur + 5)
          (asn n ∷ [])
  unfolding path_bytes seg_bytes Holds last_offset path_size seg_size
  one-Adds path cur n b =
      let mem = poke path.data_bytes cur seg_asn in
      let p : suc cur ≡ cur + 1 = omega arith in
      record {
        holds = (
          poke_word-below mem (cur + 1) n cur (omega arith) ∙ poke-at path.data_bytes cur seg_asn,
          rw p (poke_word-Holds mem (cur + 1) n),
        );
        frame = λ i lt.
            poke_word-below mem (cur + 1) n i (omega arith)
            ∙ poke-other path.data_bytes cur seg_asn i (ground arith);
        moved = omega arith;
        cnt = omega arith;
        origin = refl;
      }

  pub sequence-Adds :
      (ns : List ℕ) (ptr : ℕ) (path : AsPath) (cur : ℕ)
      → All (λ n. n < (if attr.asn_len == 2 then 2 ^ 16 else 2 ^ 32)) ns
      → Holds attr.data_bytes ptr (asns_bytes attr.asn_len ns)
      → cur + 5 * length ns < 2 ^ 16
      → path.seg_cnt + length ns < 2 ^ 16
      → (path' : AsPath) × (sequence_loop (length ns) attr ptr path cur
          ≡ some (path', cur + 5 * length ns))
        × Adds path path' cur (cur + 5 * length ns) (map asn ns)
        × Same path path'
  unfolding sequence_loop asns_bytes
  sequence-Adds [] ptr path cur a h b c = (
    path,
    ap (λ o. some (path, o)) (omega arith),
    record {
      holds = unfold Holds path_bytes in tt;
      frame = λ i lt. refl;
      moved = unfold path_size in omega arith;
      cnt = omega arith;
      origin = unfold last_offset in refl;
    },
    (refl, refl),
  )
  sequence-Adds (n ∷ ns) ptr path cur (a, as') h b c =
      let (own, rest) =
        Holds-split attr.data_bytes ptr (ptr + attr.asn_len) (asn_bytes attr.asn_len n)
          (asns_bytes attr.asn_len ns) (omega (arith, length-asn_bytes n)) h in
      let read = read_asn-Holds ptr n a own in
      let first = one-Adds path cur n (omega arith) in
      let next : AsPath = record path {
        data_bytes = poke_word (poke path.data_bytes cur seg_asn) (cur + 1) n;
        origin_offset = cur;
        seg_cnt = (path.seg_cnt + 1) % 2 ^ 16;
      } in
      let (path', e, more, same) =
        sequence-Adds ns (ptr + attr.asn_len) next (cur + 5) as' rest (omega arith)
          (omega (arith, first.cnt)) in
      let at : (cur + 5) % 2 ^ 16 ≡ cur + 5 = omega arith in
      let end : cur + 5 + 5 * length ns ≡ cur + 5 * length (n ∷ ns) = omega arith in
      (
        path',
        rw (sequence_loop, read, at, e) (ap (λ o. some (path', o)) end),
        rw end at (Adds-trans path next path' cur (cur + 5) _ (asn n ∷ []) (map asn ns) first more),
        same,
      )

  pub set-Holds :
      (ns : List ℕ) (ptr : ℕ) (mem : Mem) (at : ℕ)
      → All (λ n. n < (if attr.asn_len == 2 then 2 ^ 16 else 2 ^ 32)) ns
      → Holds attr.data_bytes ptr (asns_bytes attr.asn_len ns)
      → (mem' : Mem) × (set_loop (length ns) attr ptr mem at ≡ some mem')
        × Holds mem' at (words_bytes ns)
        × ((i : ℕ) → i < at → mem' i ≡ mem i)
  unfolding set_loop asns_bytes words_bytes
  set-Holds [] ptr mem at a h = (mem, refl, unfold Holds in tt, λ i lt. refl)
  set-Holds (n ∷ ns) ptr mem at (a, as') h =
      let (own, rest) =
        Holds-split attr.data_bytes ptr (ptr + attr.asn_len) (asn_bytes attr.asn_len n)
          (asns_bytes attr.asn_len ns) (omega (arith, length-asn_bytes n)) h in
      let read = read_asn-Holds ptr n a own in
      let (mem', e, more, frame) =
        set-Holds ns (ptr + attr.asn_len) (poke_word mem at n) (at + 4) as' rest in
      (
        mem',
        rw (set_loop, read, e) refl,
        Holds-append mem' at (at + 4) _ (words_bytes ns) refl
            (Holds-agree (poke_word mem at n) mem' at _ (λ i lo hi. frame i (omega arith))
              (poke_word-Holds mem at n))
            more,
        λ i lt. frame i (omega arith) ∙ poke_word-below mem at n i lt,
      )

  -- One segment of the message.
  pub add_seg-Adds :
      (p : Part) (ptr new_len : ℕ) (path : AsPath) (cur : ℕ)
      → IsPart attr.asn_len p
      → Holds attr.data_bytes ptr (p.kind ∷ length p.asns ∷ asns_bytes attr.asn_len p.asns)
      → new_len ≡ cur + path_size (part_segs p)
      → new_len < 2 ^ 16
      → path.seg_cnt + length (part_segs p) < 2 ^ 16
      → (path' : AsPath) × (add_seg attr ptr new_len path cur ≡ some (path', new_len))
        × Adds path path' cur new_len (part_segs p)
        × Same path path'
  unfolding add_seg IsPart part_segs Holds
  add_seg-Adds p ptr new_len path cur (lo, hi, short, all) (k, (n, rest)) e b c =
      let q : suc ptr ≡ ptr + 1 = omega arith in
      let r : suc (suc ptr) ≡ ptr + 2 = omega arith in
      let count : attr.data_bytes (ptr + 1) ≡ length p.asns = rw q at n in
      let asns = rw r at rest in
      elim (Bool-cases (p.kind == as_sequence)) [
        | inl yes_seq ↦
            let size : new_len ≡ cur + path_size (map asn p.asns) = rw yes_seq at e in
            let few : path.seg_cnt + length (map asn p.asns) < 2 ^ 16 = rw yes_seq at c in
            let (total, cnt) = asns_size p.asns in
            let (path', run, adds, same) =
              sequence-Adds p.asns (ptr + 2) path cur all asns (omega arith) (omega arith) in
            let end : cur + 5 * length p.asns ≡ new_len = omega arith in
            rw (add_seg, k, yes_seq, count)
              (path', run ∙ ap (λ o. some (path', o)) end, rw end at adds, same)
        | inr other ↦
            let s = group (seg_type p.kind) p.asns in
            let size : new_len ≡ cur + path_size (s ∷ []) = rw other at e in
            let few : path.seg_cnt + 1 < 2 ^ 16 = rw other at c in
            let head : Mem = poke path.data_bytes cur (seg_type p.kind) in
            let head' : Mem = poke head (cur + 1) (length p.asns) in
            let (mem', run, words, frame) = set-Holds p.asns (ptr + 2) head' (cur + 2) all asns in
            let path' : AsPath = record path {
              data_bytes = mem';
              origin_offset = cur;
              seg_cnt = (path.seg_cnt + 1) % 2 ^ 16;
            } in
            rw (add_seg, k, other, count, run)
              (
                path',
                refl,
                rw (sym size) at
                    (group-Adds path cur (seg_type p.kind) p.asns mem' words frame few),
                (refl, refl),
              )
      ]
