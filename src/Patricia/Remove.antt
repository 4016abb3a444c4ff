-- ===== src/Patricia/Remove.antt =====
-- What bgpstream_patricia_tree_remove_node comes to at a node with children.
use bgpstream.Base.{
  ℕ, ◌≡◌, refl, sym, ap, ◌∙◌, Bool, true, false, ◌&&◌, ◌||◌, not, Option, none, some, List, arith,
}
use bgpstream.Addr.{Pfx}
use bgpstream.Patricia.{Node, node, Frame, zip_up, is_null}
use bgpstream.Patricia.Bits.{Bits}
use bgpstream.Patricia.Valid.{
  bits, IsHead, IsTree, IsTree-cong, IsTree-le, same_pfx, is_entry, is_entry-bits, has, Agree-le,
  Agree-trans,
}
use bgpstream.Patricia.Search.{absent_short}
use bgpstream.Patricia.Path.{IsPath, zip_up-IsTree, has_path, has-zip_up}
use bgpstream.Patricia.Descend.{NodeParts}
use bgpstream.Patricia.Entries.{absent_path}
use bgpstream.Patricia.Undo.{has-null}
use bgpstream.Patricia.Locate.{side-IsTree}

-- What a removal comes to: a well-formed tree without the prefix, and with all others that it had.
pub record IsRemoved (pfx : Pfx) (tree left : Node) : Type 0 where
  pub valid : (w : Bits) → IsTree w 0 left
  pub entries : (q : Pfx) → has q left ≡ (has q tree && not (same_pfx pfx q))

strip : (s x : Bool) → (s ≡ true → x ≡ false) → x ≡ ((s || x) && not s)
strip true x h = h refl
strip false x h = ground arith

pub removed :
    (pfx : Pfx) (tree : Node) (v : Bits) (d : ℕ) (path : List Frame) (n : Node)
    → IsPath v d path
    → IsTree v d n
    → is_null n ≡ false
    → ((q : Pfx) → has q tree ≡ (same_pfx pfx q || (has q n || has_path q path)))
    → ((q : Pfx) → same_pfx pfx q ≡ true → (has q n || has_path q path) ≡ false)
    → IsRemoved pfx tree (zip_up path n)
removed pfx tree v d path n h t there same other = record {
  valid = λ w.
      IsTree-cong v w 0 (zip_up path n) (λ i p. absurd (omega arith))
        (zip_up-IsTree v d path n h t there);
  entries = λ q.
      has-zip_up q path n
      ∙ strip (same_pfx pfx q) (has q n || has_path q path) (other q)
      ∙ ap (λ b. b && not (same_pfx pfx q)) (sym (same q));
}

-- A node with a prefix in a well-formed tree, and its removal.
module _ (path : List Frame) (b : ℕ) (pfx : Pfx) (user : Option ℕ) (l r : Node) (w : Bits) (d : ℕ)
    (h : IsPath w d path) (t : IsTree w d (node b (some pfx) user l r)) where
  -- The prefix of the node is nowhere else.
  pub others :
      (q : Pfx)
      → same_pfx pfx q ≡ true
      → (has q l ≡ false) × (has q r ≡ false) × (has_path q path ≡ false)
  unfolding is_entry
  others q e =
      let (p, top, (v, g, head, left, right)) : NodeParts w d b (some pfx) l r =
        unfold IsTree in t in
      let (len, agree) = is_entry-bits q v b (some pfx) l r head e in
      (
        absent_short q v b false l left (omega (arith, len)),
        absent_short q v b true r right (omega (arith, len)),
        absent_path q w d path h (omega (arith, len, p))
            (Agree-trans (bits q) v w d (Agree-le (bits q) v d b p agree) g),
      )

  tree_has :
      (q : Pfx)
      → has q (zip_up path (node b (some pfx) user l r))
        ≡ (same_pfx pfx q || (has q l || has q r || has_path q path))
  unfolding has is_entry
  tree_has q = has-zip_up q path (node b (some pfx) user l r) ∙ ground arith

  pub node_both :
      is_null l ≡ false
      → is_null r ≡ false
      → IsRemoved pfx
          (zip_up path (node b (some pfx) user l r))
          (zip_up path (node b none none l r))
  node_both no_l no_r =
      let (p, top, (v, g, head, left, right)) : NodeParts w d b (some pfx) l r =
        unfold IsTree in t in
      removed pfx _ w d path (node b none none l r) h
        (unfold IsTree IsHead in (p, top, (v, g, (no_l, no_r), left, right)))
        (unfold is_null in refl) (λ q. tree_has q ∙ (unfold has is_entry in ground arith))
        (λ q e. let (x, y, z) = others q e in unfold has is_entry in rw (x, y, z) refl)

  node_one :
      (c : Node)
      → is_null c ≡ false
      → IsTree w d c
      → ((q : Pfx) → (has q l || has q r) ≡ has q c)
      → IsRemoved pfx (zip_up path (node b (some pfx) user l r)) (zip_up path c)
  node_one c there t_c same =
      removed pfx _ w d path c h t_c there (λ q. tree_has q ∙ (rw (sym (same q)) (ground arith)))
        (λ q e. let (x, y, z) = others q e in rw (sym (same q), x, y, z) refl)

  pub node_left :
      is_null l ≡ false
      → is_null r ≡ true
      → IsRemoved pfx (zip_up path (node b (some pfx) user l r)) (zip_up path l)
  node_left there gone =
      let (p, top, (v, g, head, left, right)) : NodeParts w d b (some pfx) l r =
        unfold IsTree in t in
      node_one l there (IsTree-cong v w d l g (IsTree-le v d b l p (side-IsTree v b false l left)))
        (λ q. rw (has-null q r gone) (ground arith))

  pub node_right :
      is_null l ≡ true
      → is_null r ≡ false
      → IsRemoved pfx (zip_up path (node b (some pfx) user l r)) (zip_up path r)
  node_right gone there =
      let (p, top, (v, g, head, left, right)) : NodeParts w d b (some pfx) l r =
        unfold IsTree in t in
      node_one r there (IsTree-cong v w d r g (IsTree-le v d b r p (side-IsTree v b true r right)))
        (λ q. rw (has-null q l gone) (ground arith))
