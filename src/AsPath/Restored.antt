-- ===== src/AsPath/Restored.antt =====
-- lib/utils/bgpstream_utils_as_path_store.c: the path that comes back from the store.
use bgpstream.Base.{
  ℕ, ◌+◌, ◌-◌, ◌%◌, ◌^◌, ◌<◌, ◌≡◌, refl, ◌∙◌, true, false, ◌&&◌, some, List, ◌∷◌, arith, ltb, leb,
  if◌then◌else◌,
}
use bgpstream.AsPath.{AsPath, seg_asn, create, clear, copy, update_fields}
use bgpstream.AsPath.Memory.{
  Mem, poke, poke_word, memcpy, Holds, Holds-agree, Holds-append, Holds-shift, poke-at,
  poke_word-Holds, poke_word-below,
}
use bgpstream.AsPath.Segments.{
  Segment, asn, IsSegment, seg_bytes, path_bytes, seg_size, path_size, IsPath, length-path_bytes,
  word_bytes,
}
use bgpstream.AsPath.Walked.{update_fields-IsPath}
use bgpstream.AsPath.Turns.{Works, reserve-keeps}
use bgpstream.AsPath.Store.{StorePath, Allocator, path_get_path}
use bgpstream.AsPath.Shallow.{Kept, whole, core}

-- Memory is never short.
pub record IsRoomy (env : Allocator) : Type 0 where
  pub grows : Works env.realloc
  pub block : (size : ℕ) → (mem : Mem) × (env.malloc size ≡ some mem)
  pub room : (count : ℕ) → env.has_room count ≡ true

copy-IsPath :
    (env : Allocator) (path : AsPath) (ss : List Segment)
    → IsRoomy env
    → IsPath path ss
    → (path' : AsPath) × (copy env.realloc create path ≡ some path') × IsPath path' ss
unfolding copy
copy-IsPath env path ss r p =
    let (own, e, _, _, _, _) = reserve-keeps env.realloc path.data_len create r.grows in
    let path' : AsPath = record own {
      data_bytes = memcpy own.data_bytes path.data_bytes path.data_len;
      data_len = path.data_len;
      seg_cnt = path.seg_cnt;
      origin_offset = path.origin_offset;
    } in
    rw (copy, e)
      (
        path',
        refl,
        record {
          bytes_of =
              Holds-agree path.data_bytes _ 0 (path_bytes ss)
                (λ i lo hi. unfold memcpy in ground (arith, length-path_bytes ss, p.len))
                p.bytes_of;
          len = p.len;
          short = p.short;
          fits = p.fits;
          cnt = p.cnt;
          origin = p.origin;
        },
      )

-- The path with the segment of the peer in front again.
core-IsPath :
    (env : Allocator) (sp : StorePath) (peer : ℕ) (cs : List Segment)
    → IsRoomy env
    → sp.is_core ≡ true
    → IsPath sp.path cs
    → peer < 2 ^ 32
    → path_size cs + 5 < 2 ^ 16
    → (path' : AsPath) × (path_get_path env sp peer ≡ some path') × IsPath path' (asn peer ∷ cs)
unfolding path_get_path clear
core-IsPath env sp peer cs r c p b short =
    let (block, e) = r.block ((sp.path.data_len + 5) % 2 ^ 16) in
    let start : Mem = poke block 0 seg_asn in
    let mem : Mem = λ i.
      if leb 5 i && ltb i (5 + sp.path.data_len)
      then sp.path.data_bytes (i - 5)
      else poke_word start 1 peer i in
    let total : path_size (asn peer ∷ cs) ≡ path_size cs + 5 =
      unfold path_size seg_size seg_bytes in omega arith in
    let pc : AsPath = record (clear create) {
      data_alloc_len = (sp.path.data_len + 5) % 2 ^ 16;
      data_len = (sp.path.data_len + 5) % 2 ^ 16;
      data_bytes = mem;
    } in
    let low = λ (i : ℕ) (lt : i < 5).
      let out : leb 5 i ≡ false = ground arith in
      let here : mem i ≡ poke_word start 1 peer i = rw out refl in here in
    let front : Holds mem 0 (seg_bytes (asn peer)) =
      unfold seg_bytes Holds in
      (
        low 0 (omega arith)
            ∙ poke_word-below start 1 peer 0 (omega arith)
            ∙ poke-at block 0 seg_asn,
        Holds-agree (poke_word start 1 peer) mem 1 (word_bytes peer)
            (λ i lo hi. low i (omega arith)) (poke_word-Holds start 1 peer),
      ) in
    let back : Holds mem 5 (path_bytes cs) =
      Holds-shift sp.path.data_bytes mem 0 5 (path_bytes cs)
        (λ i lt. ground (arith, length-path_bytes cs, p.len)) p.bytes_of in
    let all : Holds mem 0 (path_bytes (asn peer ∷ cs)) =
      unfold path_bytes in
      Holds-append mem 0 5 (seg_bytes (asn peer)) (path_bytes cs) (unfold seg_bytes in refl) front
        back in
    let (done, _) =
      update_fields-IsPath pc (asn peer ∷ cs) all (omega (arith, total, p.len))
        (omega (arith, total)) (unfold IsSegment in b, p.fits) refl in
    rw (path_get_path, c, e) (update_fields pc, refl, done)

-- The path comes back with its segments.
pub restore :
    (env : Allocator) (peer : ℕ) (ss : List Segment) (sp : StorePath)
    → IsRoomy env
    → path_size ss < 2 ^ 16
    → Kept peer ss sp
    → (path' : AsPath) × (path_get_path env sp peer ≡ some path') × IsPath path' ss
unfolding path_get_path
restore env peer ss sp r short (whole c p) = rw (path_get_path, c) (copy-IsPath env sp.path ss r p)
restore env peer ss sp r short (core cs e b c q) =
    let size : path_size ss ≡ path_size cs + 5 =
      rw e (unfold path_size seg_size seg_bytes in omega arith) in
    rw e (core-IsPath env sp peer cs r c q b (omega (arith, size)))

-- Another path of the same kind with the same segments serves as well.
pub Kept-other :
    (peer : ℕ) (ss : List Segment) (findme : StorePath)
    → Kept peer ss findme
    → (cs : List Segment) × IsPath findme.path cs
      × ((sp : StorePath) → sp.is_core ≡ findme.is_core → IsPath sp.path cs → Kept peer ss sp)
Kept-other peer ss findme (whole c p) = (ss, p, λ sp k q. whole (k ∙ c) q)
Kept-other peer ss findme (core cs e b c p) = (cs, p, λ sp k q. core cs e b (k ∙ c) q)
