-- ===== src/Patricia/Bits.antt =====
-- Addresses bit by bit: comp_with_mask, and the first bit that differs.
use bgpstream.Base.{
  ℕ, zero, suc, ◌+◌, ◌*◌, ◌/◌, ◌%◌, ◌≤◌, ◌<◌, ◌≡◌, ◌≢◌, ◌↔◌, inl, inr, refl, Bool, true, false,
  none, some, arith, ltb, ◌==◌, Bool-cases, Option-cases,
}
use bgpstream.Addr.{Addr}
use bgpstream.Patricia.{
  bit_at, same_bit, same_bits, comp_with_mask, byte_differ, differ_loop, differ_bit,
}

abbrev pub Bits : Type 0
Bits = ℕ → Bool

-- The first n bits are the same.
abbrev pub Agree : Bits → Bits → ℕ → Type 0
Agree v w n = (i : ℕ) → i < n → v i ≡ w i

pub same_bit_iff : (a b : Bool) → (same_bit a b ≡ true) ↔ (a ≡ b)
unfolding same_bit
same_bit_iff true true = ground arith
same_bit_iff true false = ground arith
same_bit_iff false true = ground arith
same_bit_iff false false = ground arith

-- The bits of a range are the same.
abbrev AgreeFrom : Addr → Addr → ℕ → ℕ → Type 0
AgreeFrom a t base count = (i : ℕ) → base ≤ i → i < base + count → bit_at a i ≡ bit_at t i

same_bits_sound :
    (a t : Addr) (base count : ℕ) → same_bits a t base count ≡ true → AgreeFrom a t base count
unfolding same_bits
same_bits_sound a t base zero e i p q = absurd (omega arith)
same_bits_sound a t base (suc count) e i p q =
    let head : same_bit (bit_at a base) (bit_at t base) ≡ true = ground arith in
    let rest : same_bits a t (base + 1) count ≡ true = ground arith in
    elim (Bool-cases (i == base)) [
      | inl here ↦
          let same : i ≡ base = ground arith in
          rw same ((same_bit_iff (bit_at a base) (bit_at t base)).0 head)
      | inr later ↦
          let past : base + 1 ≤ i = ground arith in
          same_bits_sound a t (base + 1) count rest i past (omega arith)
    ]

same_bits_complete :
    (a t : Addr) (base count : ℕ) → AgreeFrom a t base count → same_bits a t base count ≡ true
unfolding same_bits
same_bits_complete a t base zero h = refl
same_bits_complete a t base (suc count) h =
    rw
      (
        (same_bit_iff (bit_at a base) (bit_at t base)).1 (h base (omega arith) (omega arith)),
        same_bits_complete a t (base + 1) count (λ i p q. h i (omega arith) (omega arith)),
      )
      refl

-- comp_with_mask compares the first `mask` bits.
pub comp_with_mask_iff :
    (a t : Addr) (mask : ℕ) → (comp_with_mask a t mask ≡ true) ↔ Agree (bit_at a) (bit_at t) mask
unfolding comp_with_mask
comp_with_mask_iff a t mask = (
  λ e i p.
      let whole : same_bits a t 0 (8 * (mask / 8)) ≡ true = ground arith in
      elim (Bool-cases (ltb i (8 * (mask / 8)))) [
        | inl low ↦ same_bits_sound a t 0 (8 * (mask / 8)) whole i (omega arith) (ground arith)
        | inr high ↦
            let ragged : (mask % 8 == 0) ≡ false = ground arith in
            let last : same_bits a t (8 * (mask / 8)) (mask % 8) ≡ true = ground (arith, ragged) in
            same_bits_sound a t (8 * (mask / 8)) (mask % 8) last i (ground arith) (omega arith)
      ],
  λ h.
      rw
        (
          same_bits_complete a t 0 (8 * (mask / 8)) (λ i p q. h i (omega arith)),
          same_bits_complete a t (8 * (mask / 8)) (mask % 8) (λ i p q. h i (omega arith)),
        )
        (ground arith),
)

-- What byte_differ and the loop find.
byte_differ-none :
    (a t : Addr) (base count : ℕ) → byte_differ a t base count ≡ none → AgreeFrom a t base count
unfolding byte_differ
byte_differ-none a t base zero e i p q = absurd (omega arith)
byte_differ-none a t base (suc count) e i p q =
    elim (Bool-cases (same_bit (bit_at a base) (bit_at t base))) [
      | inr differs ↦ absurd (cc (rw differs at e))
      | inl head ↦
          let rest : byte_differ a t (base + 1) count ≡ none = rw head at e in
          elim (Bool-cases (i == base)) [
            | inl here ↦
                let same : i ≡ base = ground arith in
                rw same ((same_bit_iff (bit_at a base) (bit_at t base)).0 head)
            | inr later ↦
                let past : base + 1 ≤ i = ground arith in
                byte_differ-none a t (base + 1) count rest i past (omega arith)
          ]
    ]

-- The first bit in a range that differs.
pub record IsFirst (a t : Addr) (base limit d : ℕ) : Type 0 where
  pub low : base ≤ d
  pub high : d < limit
  pub before : (i : ℕ) → base ≤ i → i < d → bit_at a i ≡ bit_at t i
  pub differs : bit_at a d ≢ bit_at t d

byte_differ-some :
    (a t : Addr) (base count d : ℕ)
    → byte_differ a t base count ≡ some d
    → IsFirst a t base (base + count) d
unfolding byte_differ
byte_differ-some a t base zero d e = absurd (cc e)
byte_differ-some a t base (suc count) d e =
    elim (Bool-cases (same_bit (bit_at a base) (bit_at t base))) [
      | inl head ↦
          let rest = byte_differ-some a t (base + 1) count d (rw head at e) in
          record {
            low = omega (arith, rest.low);
            high = omega (arith, rest.high);
            before = λ i p q. elim (Bool-cases (i == base)) [
              | inl here ↦
                  let same : i ≡ base = ground arith in
                  rw same ((same_bit_iff (bit_at a base) (bit_at t base)).0 head)
              | inr later ↦ rest.before i (ground arith) q
            ];
            differs = rest.differs;
          }
      | inr differs ↦
          let found : base ≡ d = ground (arith, rw differs at e) in
          record {
            low = omega arith;
            high = omega arith;
            before = λ i p q. absurd (omega arith);
            differs = λ s.
                absurd
                  (cc (differs, (same_bit_iff (bit_at a base) (bit_at t base)).1 (rw found s)));
          }
    ]

-- The number of bits that are the same, out of the first `check_bit`.
pub record IsCommon (a t : Addr) (check_bit d : ℕ) : Type 0 where
  pub within : d ≤ check_bit
  pub agree : Agree (bit_at a) (bit_at t) d
  pub differs : d < check_bit → bit_at a d ≢ bit_at t d

-- The loop from byte i on, where the bytes before are the same and there are enough rounds.
differ_loop-IsCommon :
    (rounds : ℕ) (a t : Addr) (check_bit i : ℕ)
    → Agree (bit_at a) (bit_at t) (i * 8)
    → check_bit ≤ (i + rounds) * 8
    → let d = differ_loop rounds a t check_bit i (i * 8) in
      ((j : ℕ) → j < d → j < check_bit → bit_at a j ≡ bit_at t j)
      × (d < check_bit → bit_at a d ≢ bit_at t d)
unfolding differ_loop
differ_loop-IsCommon zero a t check_bit i h p = (λ j q r. h j q, λ q. absurd (omega arith))
differ_loop-IsCommon (suc rounds) a t check_bit i h p = elim (Bool-cases (ltb (i * 8) check_bit)) [
  | inr over ↦ rw over (λ j q r. h j q, λ q. absurd (ground arith))
  | inl more ↦ elim (Option-cases (byte_differ a t (i * 8) 8)) [
    | inl same ↦
        let byte = byte_differ-none a t (i * 8) 8 same in
        let longer : Agree (bit_at a) (bit_at t) ((i + 1) * 8) = λ j q.
          elim (Bool-cases (ltb j (i * 8))) [
            | inl low ↦ h j (ground arith)
            | inr high ↦ byte j (ground arith) (omega arith)
          ] in
        rw (more, same) (differ_loop-IsCommon rounds a t check_bit (i + 1) longer (omega arith))
    | inr (d, e) ↦
        let first = byte_differ-some a t (i * 8) 8 d e in
        rw (more, e)
          (
            λ j q r. elim (Bool-cases (ltb j (i * 8))) [
              | inl low ↦ h j (ground arith)
              | inr high ↦ first.before j (ground arith) q
            ],
            λ q. first.differs,
          )
  ]
]

-- The byte loop of insert finds the first bit that differs, or the number of bits to check.
pub differ_bit-IsCommon :
    (a t : Addr) (check_bit : ℕ)
    → check_bit ≤ 128
    → IsCommon a t check_bit (differ_bit a t check_bit)
unfolding differ_bit
differ_bit-IsCommon a t check_bit p =
    let (agree, differs) =
      differ_loop-IsCommon 16 a t check_bit 0 (λ j q. absurd (omega arith)) (omega arith) in
    elim (Bool-cases (ltb check_bit (differ_loop 16 a t check_bit 0 0))) [
      | inl past ↦ rw past (record {
        within = omega arith;
        agree = λ j q. agree j (ground arith) q;
        differs = λ q. absurd (omega arith);
      })
      | inr reached ↦ rw reached (record {
        within = ground arith;
        agree = λ j q. agree j q (ground arith);
        differs = differs;
      })
    ]
