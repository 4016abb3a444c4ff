-- ===== src/AsPath/Message.antt =====
-- The bytes of a message that bgpstream_as_path_populate of lib/utils/bgpstream_utils_as_path.c reads,
-- and the segments that it makes of them.
use bgpstream.Base.{
  ℕ, ◌/◌, ◌%◌, ◌^◌, ◌≤◌, ◌<◌, inl, inr, List, [], ◌∷◌, ◌++◌, map, arith, ◌==◌, if◌then◌else◌,
  length, length-append, All, Bool-cases,
}
use bgpstream.AsPath.Segments.{Segment, asn, group, IsSegment}
use bgpstream.AsPath.Populate.{seg_type, as_sequence}

-- A segment of a message, and its bytes, the AS numbers in network byte order.
pub record Part : Type 0 where
  pub kind : ℕ
  pub asns : List ℕ

unfoldable pub asn_bytes : ℕ → ℕ → List ℕ
asn_bytes asn_len n =
    if asn_len == 2
    then (n / 256 % 256) ∷ n % 256 ∷ []
    else (n / 16777216 % 256) ∷ (n / 65536 % 256) ∷ (n / 256 % 256) ∷ n % 256 ∷ []

unfoldable pub asns_bytes : ℕ → List ℕ → List ℕ
asns_bytes asn_len [] = []
asns_bytes asn_len (n ∷ ns) = asn_bytes asn_len n ++ asns_bytes asn_len ns

unfoldable pub message : ℕ → List Part → List ℕ
message asn_len [] = []
message asn_len (p ∷ ps) = p.kind ∷ length p.asns ∷ asns_bytes asn_len p.asns ++ message asn_len ps

unfoldable pub IsPart : ℕ → Part → Type 0
IsPart asn_len p =
    (1 ≤ p.kind)
    × (p.kind ≤ 4)
    × (length p.asns < 256)
    × All (λ n. n < (if asn_len == 2 then 2 ^ 16 else 2 ^ 32)) p.asns

-- The segments of the path: one for each AS number of a sequence.
unfoldable pub part_segs : Part → List Segment
part_segs p = if p.kind == as_sequence then map asn p.asns else group (seg_type p.kind) p.asns ∷ []

unfoldable pub segs_of : List Part → List Segment
segs_of [] = []
segs_of (p ∷ ps) = part_segs p ++ segs_of ps

pub part-IsSegment : (asn_len : ℕ) (p : Part) → IsPart asn_len p → All IsSegment (part_segs p)
unfolding part_segs IsPart seg_type
part-IsSegment asn_len p (lo, hi, short, all) =
    let wide = asns_bound asn_len p.asns all in
    elim (Bool-cases (p.kind == as_sequence)) [
      | inl seq ↦ rw seq (asns-IsSegment p.asns wide)
      | inr other ↦ rw other (unfold IsSegment in (ground arith, ground arith, short, wide), tt)
    ]
  where
    asns_bound :
        (asn_len : ℕ) (ns : List ℕ)
        → All (λ n. n < (if asn_len == 2 then 2 ^ 16 else 2 ^ 32)) ns
        → All (λ n. n < 2 ^ 32) ns
    asns_bound asn_len [] a = tt
    asns_bound asn_len (n ∷ ns) (a, as') = (ground arith, asns_bound asn_len ns as')

    asns-IsSegment : (ns : List ℕ) → All (λ n. n < 2 ^ 32) ns → All IsSegment (map asn ns)
    asns-IsSegment [] a = tt
    asns-IsSegment (n ∷ ns) (a, as') = (unfold IsSegment in a, asns-IsSegment ns as')

pub All-append {ℓ κ} :
    {A : Type ℓ} (P : A → Type κ) (xs ys : List A) → All P xs → All P ys → All P (xs ++ ys)
All-append P [] ys h k = k
All-append P (x ∷ xs) ys (h, hs) k = (h, All-append P xs ys hs k)

pub segs_of-IsSegment :
    (asn_len : ℕ) (ps : List Part) → All (IsPart asn_len) ps → All IsSegment (segs_of ps)
unfolding segs_of
segs_of-IsSegment asn_len [] i = tt
segs_of-IsSegment asn_len (p ∷ ps) (i, is) =
    All-append IsSegment (part_segs p) (segs_of ps) (part-IsSegment asn_len p i)
      (segs_of-IsSegment asn_len ps is)

pub length-message : (asn_len : ℕ) (ps : List Part) → length ps ≤ length (message asn_len ps)
unfolding message
length-message asn_len [] = omega arith
length-message asn_len (p ∷ ps) = omega (
  arith,
  length-append (asns_bytes asn_len p.asns) (message asn_len ps),
  length-message asn_len ps,
)
