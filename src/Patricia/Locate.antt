-- ===== src/Patricia/Locate.antt =====
-- The places of a well-formed tree of prefixes.
use bgpstream.Base.{ℕ, ◌+◌, ◌≡◌, refl, Bool, true, false, Option, List, [], ◌∷◌, arith}
use bgpstream.Addr.{Pfx}
use bgpstream.Patricia.{Node, Frame, plug, zip_up, is_null}
use bgpstream.Patricia.Bits.{Bits}
use bgpstream.Patricia.Valid.{with_bit, with_bit-Agree, IsTree, IsTree-cong, IsTree-le}
use bgpstream.Patricia.Path.{IsPath}
use bgpstream.Patricia.Descend.{NodeParts, step_right, step_left, inner_bit}

-- A subtree with one more bit is one without.
pub side-IsTree :
    (v : Bits) (b : ℕ) (c : Bool) (n : Node) → IsTree (with_bit v b c) (b + 1) n → IsTree v b n
side-IsTree v b c n t =
    IsTree-cong (with_bit v b c) v b n (with_bit-Agree v b c)
      (IsTree-le (with_bit v b c) b (b + 1) n (omega arith) t)

-- A place in a well-formed tree: the bits that lead to it.
abbrev pub IsPlace : List Frame → Node → Type 0
IsPlace path n = (v : Bits) × (d : ℕ) × IsPath v d path × IsTree v d n

module _ (path : List Frame) (n : Node) (there : is_null n ≡ false) (w : Bits) (d : ℕ)
    (h : IsPath w d path) where
  IsPlace-down :
      (b : ℕ) (prefix : Option Pfx) (user : Option ℕ) (right : Bool) (other : Node)
      → IsTree w d
          (plug (record { bit = b; prefix = prefix; user = user; right = right; other = other }) n)
      → IsPlace
          (record { bit = b; prefix = prefix; user = user; right = right; other = other } ∷ path)
          n
  unfolding plug
  IsPlace-down b prefix user true other t =
      let (p, top, (v, g, head, left, child)) : NodeParts w d b prefix other n =
        unfold IsTree in t in
      (
        with_bit v b true,
        b + 1,
        step_right w d b prefix user other n path h p v g head left child
            (inner_bit (with_bit v b true) b n child there),
        child,
      )
  IsPlace-down b prefix user false other t =
      let (p, top, (v, g, head, child, right)) : NodeParts w d b prefix n other =
        unfold IsTree in t in
      (
        with_bit v b false,
        b + 1,
        step_left w d b prefix user n other path h p v g head child right
            (inner_bit (with_bit v b false) b n child there),
        child,
      )

pub plug-there :
    (b : ℕ) (prefix : Option Pfx) (user : Option ℕ) (right : Bool) (other n : Node)
    → is_null
        (plug (record { bit = b; prefix = prefix; user = user; right = right; other = other }) n)
      ≡ false
unfolding plug is_null
plug-there b prefix user true other n = refl
plug-there b prefix user false other n = refl

pub zip_up-IsPlace :
    (path : List Frame) (n : Node) (w : Bits)
    → is_null n ≡ false
    → IsTree w 0 (zip_up path n)
    → IsPlace path n
unfolding zip_up
zip_up-IsPlace [] n w there t = (w, 0, unfold IsPath in tt, t)
zip_up-IsPlace (f ∷ path) n w there t =
    let (v, d, h, u) =
      zip_up-IsPlace path (plug f n) w (plug-there f.bit f.prefix f.user f.right f.other n) t in
    IsPlace-down path n there v d h f.bit f.prefix f.user f.right f.other u
