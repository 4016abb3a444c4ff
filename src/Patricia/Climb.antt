-- ===== src/Patricia/Climb.antt =====
-- The navigation of bgpstream_patricia_tree_insert, back up to an ancestor.
use bgpstream.Base.{
  ℕ, ◌+◌, ◌≤◌, ◌<◌, ◌≡◌, ◌⊎◌, inl, inr, refl, sym, ◌∙◌, not, Option, List, [], ◌∷◌, arith, leb,
  Bool-cases,
}
use bgpstream.Addr.{Addr, Pfx}
use bgpstream.Patricia.{bit_at, Node, node, Frame, Loc, plug, zip_up, is_null, maxbits, climb}
use bgpstream.Patricia.Bits.{Bits}
use bgpstream.Patricia.Valid.{with_bit, IsTree}
use bgpstream.Patricia.Path.{IsPath, IsFrameHead, plug-IsTree}
use bgpstream.Patricia.Descend.{Follows}

-- Where the climb ends: at a node whose parent's bit is below the one that differs, and which is the
-- one that the climb began at or has all the bits of `t` up to its own.
pub data Climbed (addr : Addr) (differ limit : ℕ) (t : Bits) (start tree : Node)
    : Loc → Type 0 where
  climbed :
      (path : List Frame) (b : ℕ) (prefix : Option Pfx) (user : Option ℕ) (l r : Node)
      → zip_up path (node b prefix user l r) ≡ tree
      → IsPath t b path
      → IsPath t differ path
      → IsTree t b (node b prefix user l r)
      → Follows addr path
      → b ≤ limit
      → (node b prefix user l r ≡ start) ⊎ ((differ ≤ b) × (b < limit) × (bit_at addr b ≡ t b))
      → Climbed addr differ limit t start tree
          (record { path = path; here = node b prefix user l r })

abbrev pub FrameParts : Bits → ℕ → Frame → List Frame → Type 0
FrameParts v d f path =
    (f.bit < d)
    × (f.bit < maxbits)
    × (f.right ≡ v f.bit)
    × IsTree (with_bit v f.bit (not f.right)) (f.bit + 1) f.other
    × IsFrameHead v f.bit f.prefix f.other
    × IsPath v f.bit path

module _ (addr : Addr) (differ limit : ℕ) (t : Bits) (start : Node) where
  pub climb-Climbed :
      (path : List Frame) (b : ℕ) (prefix : Option Pfx) (user : Option ℕ) (l r : Node)
      → IsPath t b path
      → IsTree t b (node b prefix user l r)
      → Follows addr path
      → b ≤ limit
      → (node b prefix user l r ≡ start) ⊎ ((differ ≤ b) × (b < limit) × (bit_at addr b ≡ t b))
      → Climbed addr differ limit t start
          (zip_up path (node b prefix user l r))
          (climb differ path (node b prefix user l r))
  unfolding climb zip_up plug
  climb-Climbed [] b prefix user l r h tree follows in_limit came =
      climbed [] b prefix user l r refl h (unfold IsPath in tt) tree follows in_limit came
  climb-Climbed (f ∷ path) b prefix user l r h tree (side, follows) in_limit came =
      let (under, top, turn, other, head, rest) : FrameParts t b f path = unfold IsPath in h in
      elim (Bool-cases (leb differ f.bit)) [
        | inr stay ↦
            let lower : IsPath t differ (f ∷ path) =
              unfold IsPath in (ground arith, top, turn, other, head, rest) in
            rw stay
              (climbed (f ∷ path) b prefix user l r refl h lower tree (side, follows) in_limit came)
        | inl up ↦
            let above : differ ≤ f.bit = ground arith in
            let parent =
              (plug-IsTree t b f path (node b prefix user l r) h tree (unfold is_null in refl)).0 in
            elim (Bool-cases f.right) [
              | inl on_right ↦
                  rw (up, on_right)
                    (climb-Climbed path f.bit f.prefix f.user f.other (node b prefix user l r) rest
                      (rw on_right at parent) follows (omega arith)
                      (inr (above, omega arith, sym side ∙ turn)))
              | inr on_left ↦
                  rw (up, on_left)
                    (climb-Climbed path f.bit f.prefix f.user (node b prefix user l r) f.other rest
                      (rw on_left at parent) follows (omega arith)
                      (inr (above, omega arith, sym side ∙ turn)))
            ]
      ]
