-- ===== src/Patricia/RemoveNode.antt =====
-- bgpstream_patricia_tree_remove_node at a node with a prefix.
use bgpstream.Base.{
  ℕ, ◌≡◌, inl, inr, refl, ◌∙◌, Bool, true, false, ◌||◌, not, Option, none, some, List, [], ◌∷◌,
  arith, Bool-cases,
}
use bgpstream.Addr.{Pfx}
use bgpstream.Patricia.{Node, null, node, Frame, plug, zip_up, is_null, is_glue}
use bgpstream.Patricia.Removal.{remove_leaf, remove_node}
use bgpstream.Patricia.Bits.{Bits}
use bgpstream.Patricia.Valid.{IsHead, IsTree, same_pfx, is_entry, has}
use bgpstream.Patricia.Path.{IsPath, IsFrameHead, has_path, has-zip_up, has-plug}
use bgpstream.Patricia.Climb.{FrameParts}
use bgpstream.Patricia.Undo.{has-null}
use bgpstream.Patricia.Locate.{side-IsTree, plug-there}
use bgpstream.Patricia.Remove.{IsRemoved, removed, others, node_both, node_left, node_right}

-- A parent that loses its child.
module _ (b : ℕ) (user : Option ℕ) (other : Node) (path : List Frame) (w : Bits) (d : ℕ) where
  parent_left :
      (q : Pfx) (right : Bool)
      → IsPath w d
          (record { bit = b; prefix = some q; user = user; right = right; other = other } ∷ path)
      → IsTree w b (
          plug
            (record { bit = b; prefix = some q; user = user; right = right; other = other })
            null)
  unfolding IsPath IsTree plug IsFrameHead IsHead
  parent_left q true (p, m, turn, o, head, rest) =
      (omega arith, omega arith, (w, λ i x. refl, head, o, tt))
  parent_left q false (p, m, turn, o, head, rest) =
      (omega arith, omega arith, (w, λ i x. refl, head, tt, o))

module _ (b : ℕ) (pfx : Pfx) (user : Option ℕ) (l r : Node) (w : Bits) (d : ℕ)
    (no_l : is_null l ≡ true) (no_r : is_null r ≡ true) where
  leaf_has :
      (path : List Frame) (q : Pfx)
      → has q (zip_up path (node b (some pfx) user l r)) ≡ (same_pfx pfx q || has_path q path)
  unfolding has is_entry
  leaf_has path q =
      has-zip_up q path (node b (some pfx) user l r)
      ∙ rw (has-null q l no_l, has-null q r no_r) (ground arith)

  node_leaf_below :
      (path : List Frame) (bit : ℕ) (prefix : Option Pfx) (user' : Option ℕ) (right : Bool)
      (other : Node)
      → let f : Frame = record {
        bit = bit;
        prefix = prefix;
        user = user';
        right = right;
        other = other;
      } in
        IsPath w d (f ∷ path)
        → IsTree w d (node b (some pfx) user l r)
        → IsRemoved pfx (zip_up (f ∷ path) (node b (some pfx) user l r)) (remove_leaf (f ∷ path))
  unfolding remove_leaf is_glue
  node_leaf_below path bit none user' right other h t =
      let f : Frame = record {
        bit = bit;
        prefix = none;
        user = user';
        right = right;
        other = other;
      } in
      let (p, m, turn, o, head, rest) : FrameParts w d f path = unfold IsPath in h in
      removed pfx _ w bit path other rest (side-IsTree w bit (not right) other o)
        (unfold IsFrameHead in head)
        (λ q. leaf_has (f ∷ path) q ∙ (unfold has_path is_entry in ground arith))
        (λ q e.
          let gone = (others (f ∷ path) b pfx user l r w d h t q e).2 in
          unfold has_path is_entry in gone)
  node_leaf_below path bit (some q0) user' right other h t =
      let f : Frame = record {
        bit = bit;
        prefix = some q0;
        user = user';
        right = right;
        other = other;
      } in
      let (p, m, turn, o, head, rest) : FrameParts w d f path = unfold IsPath in h in
      removed pfx _ w bit path (plug f null) rest (parent_left bit user' other path w d q0 right h)
        (plug-there bit (some q0) user' right other null)
        (λ q.
          leaf_has (f ∷ path) q
          ∙ (unfold has_path has in
              rw (has-plug q bit (some q0) user' right other null) (ground arith)))
        (λ q e.
          let gone = (others (f ∷ path) b pfx user l r w d h t q e).2 in
          rw (has-plug q bit (some q0) user' right other null)
            (unfold has_path has in ground (arith, gone)))

  node_leaf :
      (path : List Frame)
      → IsPath w d path
      → IsTree w d (node b (some pfx) user l r)
      → IsRemoved pfx (zip_up path (node b (some pfx) user l r)) (remove_leaf path)
  node_leaf [] h t = record {
    valid = λ v. unfold remove_leaf IsTree in tt;
    entries = λ q. rw (leaf_has [] q) (unfold remove_leaf has has_path in ground arith);
  }
  node_leaf (f ∷ path) h t = node_leaf_below path f.bit f.prefix f.user f.right f.other h t

-- remove_node at a node with a prefix, in a well-formed tree.
pub remove_node-IsRemoved :
    (path : List Frame) (b : ℕ) (pfx : Pfx) (user : Option ℕ) (l r : Node) (w : Bits) (d : ℕ)
    → IsPath w d path
    → IsTree w d (node b (some pfx) user l r)
    → IsRemoved pfx
        (zip_up path (node b (some pfx) user l r))
        (remove_node (record { path = path; here = node b (some pfx) user l r })).tree
unfolding remove_node is_glue
remove_node-IsRemoved path b pfx user l r w d h t = elim (Bool-cases (is_null r)) [
  | inl no_r ↦ elim (Bool-cases (is_null l)) [
    | inl no_l ↦ rw (no_r, no_l) (node_leaf b pfx user l r w d no_l no_r path h t)
    | inr on_l ↦ rw (no_r, on_l) (node_left path b pfx user l r w d h t on_l no_r)
  ]
  | inr on_r ↦ elim (Bool-cases (is_null l)) [
    | inl no_l ↦ rw (on_r, no_l) (node_right path b pfx user l r w d h t no_l on_r)
    | inr on_l ↦ rw (on_r, on_l) (node_both path b pfx user l r w d h t on_l on_r)
  ]
]
