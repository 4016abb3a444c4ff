-- ===== src/AsPath/Populated.antt =====
-- bgpstream_as_path_populate of lib/utils/bgpstream_utils_as_path.c on the bytes of a message.
use bgpstream.Base.{
  suc, ◌+◌, ◌-◌, ◌*◌, ◌≤◌, ◌<◌, ◌≡◌, ◌⊎◌, inl, inr, refl, sym, ap, ◌∙◌, true, false, List, arith,
  ltb, length, All, Bool-cases,
}
use bgpstream.AsPath.{AsPath, Realloc, clear, external}
use bgpstream.AsPath.Memory.{Holds}
use bgpstream.AsPath.Segments.{path_size, IsPath, segments}
use bgpstream.AsPath.Walked.{length-le-path_size, segments_lem}
use bgpstream.AsPath.Populate.{Attribute, populate_loop, populate, is_known, populated, failed}
use bgpstream.AsPath.Message.{Part, message, IsPart, segs_of, segs_of-IsSegment, length-message}
use bgpstream.AsPath.Turns.{Works, turns-Adds}

module _ (realloc : Realloc) (works : Works realloc) (attr : Attribute)
    (known : (attr.asn_len ≡ 2) ⊎ (attr.asn_len ≡ 4)) (path : AsPath) (ps : List Part)
    (parts : All (IsPart attr.asn_len) ps)
    (bytes : Holds attr.data_bytes 0 (message attr.asn_len ps))
    (room : length (message attr.asn_len ps) ≤ attr.len)
    (short : path_size (segs_of ps) < 65535) where
  -- The state behind the segments.
  pub reads :
      (path' : AsPath) × (populate realloc path attr
        ≡ populate_loop
            (suc (attr.len - length ps))
            realloc
            attr
            (length (message attr.asn_len ps))
            path'
            path'.data_len)
      × IsPath path' (segs_of ps)
      × (path'.data_len ≤ path'.data_alloc_len)
      × (path.data_alloc_len < external → path'.data_alloc_len < external)
  unfolding populate clear
  reads =
      let start : AsPath = clear path in
      let (path', run, adds, room', owned) =
        turns-Adds realloc works attr known ps (suc (attr.len - length ps)) 0 start parts bytes
          (omega arith) (omega arith) (omega arith)
          (omega (arith, length-le-path_size (segs_of ps))) in
      let fuel : length ps + suc (attr.len - length ps) ≡ suc attr.len =
        omega (arith, length-message attr.asn_len ps) in
      let at : 0 + length (message attr.asn_len ps) ≡ length (message attr.asn_len ps) =
        omega arith in
      (
        path',
        rw (sym fuel) (
            run
            ∙ ap
                (λ o.
                  populate_loop (suc (attr.len - length ps)) realloc attr o path' path'.data_len)
                at),
        record {
          bytes_of = adds.holds;
          len = omega (arith, adds.moved);
          short = omega arith;
          fits = segs_of-IsSegment attr.asn_len ps parts;
          cnt = omega (arith, adds.cnt);
          origin = adds.origin;
        },
        room',
        owned,
      )

  -- For a message made of any segments of the four known types, with AS numbers of 16 or of 32 bits,
  -- whose path takes less than 65535 bytes, for a path that owns its memory (its allocated length is
  -- below 65535, the mark of external data), and with memory that is never short, populate returns 0,
  -- whatever that path held before; the path has a segment for each AS number of a sequence and one
  -- for each other segment, in their order, its length, count of segments and origin say so, the loop
  -- over its segments reads them back, the path still owns its memory, and its bytes have room in it.
  pub populate-IsPath :
      attr.len ≡ length (message attr.asn_len ps)
      → path.data_alloc_len < external
      → (path' : AsPath) × (populate realloc path attr ≡ populated path')
        × IsPath path' (segs_of ps)
        × (segments path' ≡ segs_of ps)
        × (path'.data_len ≤ path'.data_alloc_len)
        × (path'.data_alloc_len < external)
  populate-IsPath e own_it =
      let (path', run, p, room', owned) = reads in
      let end : ltb (length (message attr.asn_len ps)) attr.len ≡ false = ground arith in
      let stop : populate_loop (suc (attr.len - length ps)) realloc attr
            (length (message attr.asn_len ps)) path' path'.data_len
          ≡ populated path' =
        unfold populate_loop in rw (populate_loop, end) refl in
      (path', run ∙ stop, p, segments_lem path' (segs_of ps) p, room', owned own_it)

  -- For a message that begins with any segments of the four known types, with AS numbers of 16 or of
  -- 32 bits, whose path takes less than 65535 bytes, and goes on with a segment of another type or one
  -- that is longer than what is left, with memory that is never short, populate returns -1, and the
  -- path is well-formed and has the segments before that one and no others.
  pub populate-failed :
      length (message attr.asn_len ps) < attr.len
      → (is_known (attr.data_bytes (length (message attr.asn_len ps))) ≡ false)
        ⊎ (attr.len
            < length (message attr.asn_len ps)
              + (attr.data_bytes (length (message attr.asn_len ps) + 1) * attr.asn_len + 2))
      → (path' : AsPath) × (populate realloc path attr ≡ failed path')
        × IsPath path' (segs_of ps)
        × (segments path' ≡ segs_of ps)
  populate-failed lt bad =
      let (path', run, p, room', owned) = reads in
      let at = length (message attr.asn_len ps) in
      let more : ltb at attr.len ≡ true = ground arith in
      let stop : populate_loop (suc (attr.len - length ps)) realloc attr at path' path'.data_len
          ≡ failed path' =
        elim (Bool-cases (is_known (attr.data_bytes at))) [
          | inl ok ↦
              let beyond : ltb attr.len (at + (attr.data_bytes (at + 1) * attr.asn_len + 2))
                  ≡ true =
                ground arith in
              unfold populate_loop in rw (populate_loop, more, ok, beyond) refl
          | inr wrong ↦ unfold populate_loop in rw (populate_loop, more, wrong) refl
        ] in
      (path', run ∙ stop, p, segments_lem path' (segs_of ps) p)
