-- ===== src/Patricia/Descend.antt =====
-- The navigation of bgpstream_patricia_tree_insert, down to a node.
use bgpstream.Base.{
  ℕ, ◌+◌, ◌≤◌, ◌<◌, ◌≡◌, inl, inr, refl, sym, Bool, true, false, ◌&&◌, ◌||◌, not, Option, none,
  some, List, ◌∷◌, arith, ltb, if◌then◌else◌, Bool-cases, All,
}
use bgpstream.Addr.{Addr, Pfx}
use bgpstream.Patricia.{
  bit_at, Node, null, node, Frame, Loc, plug, zip_up, is_null, is_glue, maxbits, descend,
}
use bgpstream.Patricia.Bits.{Bits, Agree}
use bgpstream.Patricia.Valid.{
  bits, with_bit, with_bit-same, with_bit-Agree, IsHead, IsTree, IsTree-cong, Agree-sym,
}
use bgpstream.Patricia.Path.{
  IsPath, IsPath-cong, IsPath-le, IsFrameHead, IsFrameHead-cong, with_bit-cong,
}

-- The navigation follows the bits of the new address.
abbrev pub Follows : Addr → List Frame → Type 0
Follows addr path = All (λ (f : Frame). f.right ≡ bit_at addr f.bit) path

-- The child on the side of an address.
unfoldable pub child_of : Addr → Node → Node
child_of addr null = null
child_of addr (node b prefix user l r) = if ltb b maxbits && bit_at addr b then r else l

-- Where the navigation ends: at a node with a prefix, whose bit is not below the length or which has
-- no child on the side of the address.
pub data Stopped (addr : Addr) (bitlen : ℕ) (tree : Node) : Loc → Type 0 where
  stopped :
      (path : List Frame) (b : ℕ) (q : Pfx) (user : Option ℕ) (l r : Node)
      → zip_up path (node b (some q) user l r) ≡ tree
      → IsPath (bits q) b path
      → IsTree (bits q) b (node b (some q) user l r)
      → Follows addr path
      → (b < bitlen → is_null (child_of addr (node b (some q) user l r)) ≡ true)
      → Stopped addr bitlen tree (record { path = path; here = node b (some q) user l r })

pub IsFrameHead-left :
    (b : ℕ) (v : Bits) (prefix : Option Pfx) (l r : Node)
    → IsHead v b prefix l r
    → IsFrameHead v b prefix l
unfolding IsHead IsFrameHead
IsFrameHead-left b v none l r h = h.0
IsFrameHead-left b v (some pfx) l r h = h

pub IsFrameHead-right :
    (b : ℕ) (v : Bits) (prefix : Option Pfx) (l r : Node)
    → IsHead v b prefix l r
    → IsFrameHead v b prefix r
unfolding IsHead IsFrameHead
IsFrameHead-right b v none l r h = h.1
IsFrameHead-right b v (some pfx) l r h = h

-- A child that is there has a bit above its parent's.
pub inner_bit : (w : Bits) (b : ℕ) (n : Node) → IsTree w (b + 1) n → is_null n ≡ false → b < maxbits
unfolding IsTree is_null
inner_bit w b null t e = absurd (cc e)
inner_bit w b (node c prefix user l r) (p, m, rest) e = omega arith

-- A step down to the child on the right, or on the left.
module _ (w : Bits) (d b : ℕ) (prefix : Option Pfx) (user : Option ℕ) (l r : Node)
    (path : List Frame) (h : IsPath w d path) (p : d ≤ b) (v : Bits) (g : Agree v w d)
    (head : IsHead v b prefix l r) (left : IsTree (with_bit v b false) (b + 1) l)
    (right : IsTree (with_bit v b true) (b + 1) r) where
  at_node : IsPath v b path
  at_node = IsPath-le v d b path p (IsPath-cong w v d path (Agree-sym v w d g) h)

  pub lower : (c : Bool) → IsPath (with_bit v b c) b path
  lower c =
      IsPath-cong v (with_bit v b c) b path (Agree-sym (with_bit v b c) v b (with_bit-Agree v b c))
        at_node

  step_path :
      (c : Bool) (other : Node)
      → IsFrameHead v b prefix other
      → IsTree (with_bit v b (not c)) (b + 1) other
      → b < maxbits
      → IsPath
          (with_bit v b c)
          (b + 1)
          (record { bit = b; prefix = prefix; user = user; right = c; other = other } ∷ path)
  unfolding IsPath
  step_path c other f t m = (
    omega arith,
    m,
    sym (with_bit-same v b c),
    IsTree-cong (with_bit v b (not c)) (with_bit (with_bit v b c) b (not c)) (b + 1) other
        (with_bit-cong v (with_bit v b c) b (not c)
          (Agree-sym (with_bit v b c) v b (with_bit-Agree v b c)))
        t,
    IsFrameHead-cong v (with_bit v b c) b prefix other
        (Agree-sym (with_bit v b c) v b (with_bit-Agree v b c)) f,
    lower c,
  )

  pub step_right :
      b < maxbits
      → IsPath
          (with_bit v b true)
          (b + 1)
          (record { bit = b; prefix = prefix; user = user; right = true; other = l } ∷ path)
  step_right m = step_path true l (IsFrameHead-left b v prefix l r head) left m

  pub step_left :
      b < maxbits
      → IsPath
          (with_bit v b false)
          (b + 1)
          (record { bit = b; prefix = prefix; user = user; right = false; other = r } ∷ path)
  step_left m = step_path false r (IsFrameHead-right b v prefix l r head) right m

-- The walk stops at a node with a prefix.
stop_here :
    (addr : Addr) (bitlen : ℕ) (w : Bits) (d b : ℕ) (q : Pfx) (user : Option ℕ) (l r : Node)
    (path : List Frame)
    → IsPath w d path
    → IsTree w d (node b (some q) user l r)
    → Follows addr path
    → (b < bitlen → is_null (child_of addr (node b (some q) user l r)) ≡ true)
    → Stopped addr bitlen
        (zip_up path (node b (some q) user l r))
        (record { path = path; here = node b (some q) user l r })
unfolding IsTree IsHead
stop_here addr bitlen w d b q user l r path h (p, m, (v, g, (len, agree), left, right)) follows
      no_child =
    let there = IsPath-le v d b path p (IsPath-cong w v d path (Agree-sym v w d g) h) in
    stopped path b q user l r refl
      (IsPath-cong v (bits q) b path (Agree-sym (bits q) v b agree) there)
      (omega arith, m, (v, Agree-sym (bits q) v b agree, (len, agree), left, right)) follows
      no_child

or-true : (b : Bool) → (b || true) ≡ true
or-true b = ground arith

-- What the parts of a well-formed node are.
abbrev pub NodeParts : Bits → ℕ → ℕ → Option Pfx → Node → Node → Type 0
NodeParts w d b prefix l r =
    (d ≤ b)
    × (b ≤ maxbits)
    × ((v : Bits) × Agree v w d
        × IsHead v b prefix l r
        × IsTree (with_bit v b false) (b + 1) l
        × IsTree (with_bit v b true) (b + 1) r)

pub descend-Stopped :
    (addr : Addr) (bitlen : ℕ) (w : Bits) (d : ℕ) (path : List Frame) (n : Node)
    → IsPath w d path
    → IsTree w d n
    → is_null n ≡ false
    → Follows addr path
    → Stopped addr bitlen (zip_up path n) (descend addr bitlen path n)
unfolding descend zip_up plug is_glue
descend-Stopped addr bitlen w d path null h t e follows = absurd (unfold is_null in cc e)
descend-Stopped addr bitlen w d path (node b none user l r) h t e follows =
    let (p, top, (v, g, head, left, right)) : NodeParts w d b none l r = unfold IsTree in t in
    let both : (is_null l ≡ false) × (is_null r ≡ false) = unfold IsHead in head in
    let inner : b < maxbits = inner_bit (with_bit v b false) b l left both.0 in
    let over : ltb b maxbits ≡ true = ground arith in
    elim (Bool-cases (bit_at addr b)) [
      | inl one ↦
          rw (or-true (ltb b bitlen), over, one, both.1)
            (descend-Stopped addr bitlen (with_bit v b true) (b + 1)
              (record { bit = b; prefix = none; user = user; right = true; other = l } ∷ path) r
              (step_right w d b none user l r path h p v g head left right inner) right both.1
              (sym one, follows))
      | inr nought ↦
          rw (or-true (ltb b bitlen), over, nought, both.0)
            (descend-Stopped addr bitlen (with_bit v b false) (b + 1)
              (record { bit = b; prefix = none; user = user; right = false; other = r } ∷ path) l
              (step_left w d b none user l r path h p v g head left right inner) left both.0
              (sym nought, follows))
    ]
descend-Stopped addr bitlen w d path (node b (some q) user l r) h t e follows =
    let (p, top, (v, g, head, left, right)) : NodeParts w d b (some q) l r = unfold IsTree in t in
    elim (Bool-cases (ltb b bitlen)) [
      | inr long ↦
          rw long (
            stop_here addr bitlen w d b q user l r path h t follows
              (λ short. absurd (ground arith)))
      | inl more ↦ elim (Bool-cases (ltb b maxbits && bit_at addr b)) [
        | inl one ↦ elim (Bool-cases (is_null r)) [
          | inl empty ↦
              rw (more, one, empty)
                (stop_here addr bitlen w d b q user l r path h t follows
                  (λ short. unfold child_of in rw one empty))
          | inr there ↦
              rw (more, one, there)
                (descend-Stopped addr bitlen (with_bit v b true) (b + 1)
                  (record { bit = b; prefix = some q; user = user; right = true; other = l } ∷ path)
                  r (step_right w d b (some q) user l r path h p v g head left right (ground arith))
                  right there (ground arith, follows))
        ]
        | inr nought ↦ elim (Bool-cases (is_null l)) [
          | inl empty ↦
              rw (more, nought, empty)
                (stop_here addr bitlen w d b q user l r path h t follows
                  (λ short. unfold child_of in rw nought empty))
          | inr there ↦
              let inner : b < maxbits = inner_bit (with_bit v b false) b l left there in
              rw (more, nought, there)
                (descend-Stopped addr bitlen (with_bit v b false) (b + 1)
                  (record { bit = b; prefix = some q; user = user; right = false; other = r }
                    ∷ path)
                  l (step_left w d b (some q) user l r path h p v g head left right inner) left
                  there (ground arith, follows))
        ]
      ]
    ]
