-- ===== src/Elem/Allowed.antt =====
-- Trees whose prefixes allow any match: what a result set then holds.
use bgpstream.Base.{
  ℕ, ◌≡◌, inl, inr, ap, Bool, true, false, Option, none, some, List, [], ◌∷◌, Bool-cases,
  Option-cases,
}
use bgpstream.Addr.{Pfx}
use bgpstream.Patricia.{Node, null, node, Frame, plug, zip_up, is_null, is_glue}
use bgpstream.Patricia.Removal.{remove_leaf, remove_node}
use bgpstream.Elem.{match_any}

-- The prefix of a node allows any match, if it is there.
unfoldable pub IsOpen : Option Pfx → Type 0
IsOpen none = Unit
IsOpen (some pfx) = pfx.allowed_matches ≡ match_any

unfoldable pub IsAny : Node → Type 0
IsAny null = Unit
IsAny (node b prefix user l r) = IsOpen prefix × IsAny l × IsAny r

unfoldable pub IsAnyPath : List Frame → Type 0
IsAnyPath [] = Unit
IsAnyPath (f ∷ path) = IsOpen f.prefix × IsAny f.other × IsAnyPath path

IsAny-plug :
    (b : ℕ) (prefix : Option Pfx) (user : Option ℕ) (right : Bool) (other n : Node)
    → IsAny
        (plug (record { bit = b; prefix = prefix; user = user; right = right; other = other }) n)
    → IsOpen prefix × IsAny other × IsAny n
unfolding plug IsAny
IsAny-plug b prefix user true other n (o, l, r) = (o, l, r)
IsAny-plug b prefix user false other n (o, l, r) = (o, r, l)

pub IsAny-zip_up : (path : List Frame) (n : Node) → IsAny (zip_up path n) → IsAny n × IsAnyPath path
unfolding zip_up IsAnyPath
IsAny-zip_up [] n h = (h, tt)
IsAny-zip_up (f ∷ path) n h =
    let (here, rest) = IsAny-zip_up path (plug f n) h in
    let (o, other, below) = IsAny-plug f.bit f.prefix f.user f.right f.other n here in
    (below, (o, other, rest))

leaf-IsAny : (path : List Frame) → IsAny (remove_leaf path) → IsAnyPath path
unfolding remove_leaf IsAnyPath
leaf-IsAny [] h = tt
leaf-IsAny (f ∷ path) h = elim (Option-cases f.prefix) [
  | inl glue ↦
      let flag : is_glue f.prefix ≡ true = unfold is_glue in ap is_glue glue in
      let (other, rest) = IsAny-zip_up path f.other (rw flag at h) in
      (rw glue (unfold IsOpen in tt), other, rest)
  | inr (pfx, e) ↦
      let flag : is_glue f.prefix ≡ false = unfold is_glue in ap is_glue e in
      let (here, rest) = IsAny-zip_up path (plug f null) (rw flag at h) in
      let (o, other, _) = IsAny-plug f.bit f.prefix f.user f.right f.other null here in
      (o, other, rest)
]

is_null-IsAny : (n : Node) → is_null n ≡ true → IsAny n
unfolding is_null IsAny
is_null-IsAny null e = tt
is_null-IsAny (node b prefix user l r) e = absurd (cc e)

-- What is around a node allows any match, if what is left without the node does.
pub around-IsAny :
    (path : List Frame) (b : ℕ) (p : Pfx) (user : Option ℕ) (l r : Node)
    → IsAny (remove_node (record { path = path; here = node b (some p) user l r })).tree
    → IsAnyPath path × IsAny l × IsAny r
unfolding remove_node is_glue
around-IsAny path b p user l r h = elim (Bool-cases (is_null r)) [
  | inl no_r ↦ elim (Bool-cases (is_null l)) [
    | inl no_l ↦
        (leaf-IsAny path (rw (no_r, no_l) at h), is_null-IsAny l no_l, is_null-IsAny r no_r)
    | inr on_l ↦
        let (below, rest) = IsAny-zip_up path l (rw (no_r, on_l) at h) in
        (rest, below, is_null-IsAny r no_r)
  ]
  | inr on_r ↦ elim (Bool-cases (is_null l)) [
    | inl no_l ↦
        let (below, rest) = IsAny-zip_up path r (rw (on_r, no_l) at h) in
        (rest, is_null-IsAny l no_l, below)
    | inr on_l ↦
        let (below, rest) = IsAny-zip_up path (node b none none l r) (rw (on_r, on_l) at h) in
        let (_, left, right) : IsOpen none × IsAny l × IsAny r = unfold IsAny in below in
        (rest, left, right)
  ]
]
