-- ===== src/IpCounter/Prefixes.antt =====
-- `add` of IPv4 prefixes against the set of addresses that the prefixes hold.
use Prim.Native.Nat.{bit_and, bit_or}
use mathlib.Core.Option
use bgpstream.Base.Bits.{
  clear_low, shift_right, bit_and-high, bit_or-low, shift_right_block, block_of_shift_right,
  pow_pos, pow_mono,
}
use bgpstream.Base.{
  ℕ, ◌+◌, ◌-◌, ◌^◌, ◌≤◌, ◌<◌, ◌≡◌, refl, ap, ◌∙◌, Bool, ◌||◌, List, arith, some, none, Option, ◌==◌,
}
use bgpstream.Addr.{Pfx, ipv4}
use bgpstream.IpCounter.{V4Int, IpCounter, not32, mask4, add}
use bgpstream.IpCounter.Covers.{
  in_range, covers, IsAscending, covers-merge_in_sorted_queue4, merge_in_sorted_queue4-IsAscending,
}

abbrev pub pfx4 : ℕ → ℕ → Pfx
pfx4 address mask_len = record { address = ipv4 address; mask_len = mask_len; allowed_matches = 0 }

-- x has the first mask_len bits of the address.
abbrev pub in_pfx4 : ℕ → ℕ → ℕ → Bool
in_pfx4 address mask_len x = shift_right x (32 - mask_len) == shift_right address (32 - mask_len)

pub mask4_lem : (mask_len : ℕ) → mask_len ≤ 32 → mask4 mask_len ≡ 2 ^ 32 - 2 ^ (32 - mask_len)
unfolding mask4
mask4_lem m p =
    let lo : 0 < 2 ^ (32 - m) = pow_pos (32 - m) in
    let hi : 2 ^ (32 - m) ≤ 2 ^ 32 = pow_mono (32 - m) 32 (omega arith) in omega arith

-- The interval of a prefix is the block of addresses with its bits.
module _ (address mask_len : ℕ) (p : mask_len ≤ 32) (q : address < 2 ^ 32) where
  pub first : bit_and address (mask4 mask_len) ≡ clear_low address (32 - mask_len)
  first = rw (mask4_lem mask_len p) (bit_and-high address 32 (32 - mask_len) (omega arith) q)

  pub last :
      bit_or (bit_and address (mask4 mask_len)) (not32 (mask4 mask_len))
      ≡ clear_low address (32 - mask_len) + (2 ^ (32 - mask_len) - 1)
  last =
      let hi : 2 ^ (32 - mask_len) ≤ 2 ^ 32 = pow_mono (32 - mask_len) 32 (omega arith) in
      let e : not32 (mask4 mask_len) ≡ 2 ^ (32 - mask_len) - 1 =
        omega (arith, mask4_lem mask_len p) in
      rw (first, e) (bit_or-low address (32 - mask_len))

  in_block :
      (x : ℕ)
      → in_range
          (clear_low address (32 - mask_len))
          (clear_low address (32 - mask_len) + (2 ^ (32 - mask_len) - 1))
          x
        ≡ in_pfx4 address mask_len x
  in_block x = ground (
    arith,
    pow_pos (32 - mask_len),
    shift_right_block address x (32 - mask_len),
    block_of_shift_right address x (32 - mask_len),
  )

map-eq-some {ℓ κ} :
    {A : Type ℓ} {B : Type κ} (f : A → B) (o : Option A) {b : B}
    → Option.map f o ≡ some b
    → (a : A) × (o ≡ some a) × (f a ≡ b)
map-eq-some f none h = ground arith
map-eq-some f (some a) h = (a, refl, ground arith)

-- A successful add of an IPv4 prefix to ascending, disjoint intervals covers the addresses of the prefix
-- and those covered before, and no others, keeps the intervals ascending and disjoint, and leaves the
-- IPv6 list alone.
pub add-covers :
    (alloc : Bool) (ipc ipc' : IpCounter) (address mask_len : ℕ)
    → IsAscending 0 ipc.v4list
    → mask_len ≤ 32
    → address < 2 ^ 32
    → add alloc ipc (pfx4 address mask_len) ≡ some ipc'
    → IsAscending 0 ipc'.v4list
      × ((x : ℕ) → covers ipc'.v4list x ≡ (in_pfx4 address mask_len x || covers ipc.v4list x))
      × (ipc'.v6list ≡ ipc.v6list)
unfolding add
add-covers alloc ipc ipc' address mask_len h p q e =
    let (l, inserted, same) =
      map-eq-some (λ (l : List V4Int). record ipc { v4list = l }) _
        (rw (last address mask_len p q, first address mask_len p q) at e) in
    rw (← same) (
      merge_in_sorted_queue4-IsAscending alloc ipc.v4list l 0 _ _ h (omega arith) (omega arith)
          inserted,
      λ x.
          covers-merge_in_sorted_queue4 alloc ipc.v4list l 0 _ _ x h (omega arith) inserted
          ∙ ap (λ (t : Bool). t || covers ipc.v4list x) (in_block address mask_len p q x),
      refl,
    )
