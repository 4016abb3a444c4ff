-- ===== src/Patricia/Path.antt =====
-- The ancestors of a node in a well-formed tree, and the tree put back together.
use bgpstream.Base.{
  ℕ, ◌+◌, ◌≤◌, ◌<◌, ◌≡◌, inl, inr, refl, sym, ap, ◌∙◌, Bool, true, false, ◌||◌, not, Option, none,
  some, List, [], ◌∷◌, arith, ◌==◌, Bool-cases,
}
use bgpstream.Addr.{Pfx}
use bgpstream.Patricia.{Node, Frame, plug, zip_up, is_null, maxbits}
use bgpstream.Patricia.Bits.{Bits, Agree}
use bgpstream.Patricia.Valid.{
  bits, with_bit, IsHead, IsTree, IsTree-cong, IsTree-le, is_entry, has, Agree-le, Agree-trans,
}

-- The prefix of an ancestor: a glue node has its other child.
unfoldable pub IsFrameHead : Bits → ℕ → Option Pfx → Node → Type 0
IsFrameHead v b none other = is_null other ≡ false
IsFrameHead v b (some pfx) other = (pfx.mask_len ≡ b) × Agree (bits pfx) v b

-- The ancestors of a place that the first d bits of v lead to.
unfoldable pub IsPath : Bits → ℕ → List Frame → Type 0
IsPath v d [] = Unit
IsPath v d (f ∷ path) =
    (f.bit < d)
    × (f.bit < maxbits)
    × (f.right ≡ v f.bit)
    × IsTree (with_bit v f.bit (not f.right)) (f.bit + 1) f.other
    × IsFrameHead v f.bit f.prefix f.other
    × IsPath v f.bit path

pub with_bit-cong :
    (v w : Bits) (b : ℕ) (c : Bool) → Agree v w b → Agree (with_bit v b c) (with_bit w b c) (b + 1)
unfolding with_bit
with_bit-cong v w b c h i p = elim (Bool-cases (i == b)) [
  | inl here ↦ rw here refl
  | inr past ↦ rw past (h i (ground arith))
]

-- v is with_bit w b c if it agrees with w below b and has the bit c there.
pub with_bit-extends :
    (v w : Bits) (b : ℕ) (c : Bool) → Agree v w b → v b ≡ c → Agree v (with_bit w b c) (b + 1)
unfolding with_bit
with_bit-extends v w b c h e i p = elim (Bool-cases (i == b)) [
  | inl here ↦ let same : i ≡ b = ground arith in rw here (ap v same ∙ e)
  | inr past ↦ rw past (h i (ground arith))
]

pub IsFrameHead-cong :
    (v w : Bits) (b : ℕ) (prefix : Option Pfx) (other : Node)
    → Agree v w b
    → IsFrameHead v b prefix other
    → IsFrameHead w b prefix other
unfolding IsFrameHead
IsFrameHead-cong v w b none other h t = t
IsFrameHead-cong v w b (some pfx) other h (len, agree) = (len, Agree-trans (bits pfx) v w b agree h)

pub IsPath-cong :
    (v w : Bits) (d : ℕ) (path : List Frame) → Agree v w d → IsPath v d path → IsPath w d path
unfolding IsPath
IsPath-cong v w d [] h t = tt
IsPath-cong v w d (f ∷ path) h (p, m, side, other, head, rest) =
    let below : Agree v w f.bit = Agree-le v w f.bit d (omega arith) h in
    (
      p,
      m,
      side ∙ h f.bit p,
      IsTree-cong (with_bit v f.bit (not f.right)) (with_bit w f.bit (not f.right)) (f.bit + 1)
          f.other (with_bit-cong v w f.bit (not f.right) below) other,
      IsFrameHead-cong v w f.bit f.prefix f.other below head,
      IsPath-cong v w f.bit path below rest,
    )

pub IsPath-le : (v : Bits) (d e : ℕ) (path : List Frame) → d ≤ e → IsPath v d path → IsPath v e path
unfolding IsPath
IsPath-le v d e [] q t = tt
IsPath-le v d e (f ∷ path) q (p, m, side, other, head, rest) =
    (omega arith, m, side, other, head, rest)

-- An ancestor with its child put back.
module _ (v : Bits) (d : ℕ) (path : List Frame) (n : Node) (t : IsTree v d n)
    (there : is_null n ≡ false) where
  child-at : (b : ℕ) (right : Bool) → b < d → right ≡ v b → IsTree (with_bit v b right) (b + 1) n
  child-at b right p side =
      IsTree-cong v (with_bit v b right) (b + 1) n
        (with_bit-extends v v b right (λ i q. refl) (sym side))
        (IsTree-le v (b + 1) d n (omega arith) t)

  plug-at :
      (b : ℕ) (prefix : Option Pfx) (user : Option ℕ) (right : Bool) (other : Node)
      → IsPath v d
          (record { bit = b; prefix = prefix; user = user; right = right; other = other } ∷ path)
      → let f : Frame = record {
        bit = b;
        prefix = prefix;
        user = user;
        right = right;
        other = other;
      } in
        IsTree v b (plug f n) × (is_null (plug f n) ≡ false)
  unfolding IsPath plug IsTree is_null IsHead IsFrameHead
  plug-at b none user true other (p, m, side, o, head, rest) =
      let child = child-at b true p side in
      ((omega arith, omega arith, (v, λ i q. refl, (head, there), o, child)), refl)
  plug-at b none user false other (p, m, side, o, head, rest) =
      let child = child-at b false p side in
      ((omega arith, omega arith, (v, λ i q. refl, (there, head), child, o)), refl)
  plug-at b (some pfx) user true other (p, m, side, o, head, rest) =
      let child = child-at b true p side in
      ((omega arith, omega arith, (v, λ i q. refl, head, o, child)), refl)
  plug-at b (some pfx) user false other (p, m, side, o, head, rest) =
      let child = child-at b false p side in
      ((omega arith, omega arith, (v, λ i q. refl, head, child, o)), refl)

pub plug-IsTree :
    (v : Bits) (d : ℕ) (f : Frame) (path : List Frame) (n : Node)
    → IsPath v d (f ∷ path)
    → IsTree v d n
    → is_null n ≡ false
    → IsTree v f.bit (plug f n) × (is_null (plug f n) ≡ false)
plug-IsTree v d f path n h t there =
    plug-at v d path n t there f.bit f.prefix f.user f.right f.other h

pub zip_up-IsTree :
    (v : Bits) (d : ℕ) (path : List Frame) (n : Node)
    → IsPath v d path
    → IsTree v d n
    → is_null n ≡ false
    → IsTree v 0 (zip_up path n)
unfolding zip_up
zip_up-IsTree v d [] n h t there = IsTree-le v 0 d n (omega arith) t
zip_up-IsTree v d (f ∷ path) n h t there =
    let (parent, there') = plug-IsTree v d f path n h t there in
    zip_up-IsTree v f.bit path (plug f n) (unfold IsPath in h.5) parent there'

-- The prefixes of a tree: those of a node, and those of its ancestors and their other children.
unfoldable pub has_path : Pfx → List Frame → Bool
has_path q [] = false
has_path q (f ∷ path) = is_entry q f.prefix || (has q f.other || has_path q path)

pub has-plug :
    (q : Pfx) (b : ℕ) (prefix : Option Pfx) (user : Option ℕ) (right : Bool) (other n : Node)
    → has q
        (plug (record { bit = b; prefix = prefix; user = user; right = right; other = other }) n)
      ≡ (has q n || (is_entry q prefix || has q other))
unfolding has plug
has-plug q b prefix user true other n = ground arith
has-plug q b prefix user false other n = ground arith

pub has-zip_up :
    (q : Pfx) (path : List Frame) (n : Node) → has q (zip_up path n) ≡ (has q n || has_path q path)
unfolding zip_up has_path
has-zip_up q [] n = ground arith
has-zip_up q (f ∷ path) n =
    has-zip_up q path (plug f n)
    ∙ ap (λ b. b || has_path q path) (has-plug q f.bit f.prefix f.user f.right f.other n)
    ∙ ground arith
