-- ===== src/Patricia/Below.antt =====
-- bgpstream_patricia_tree_insert at the node of a prefix, and below a node.
use bgpstream.Base.{
  ℕ, ◌+◌, ◌≤◌, ◌<◌, ◌≡◌, refl, sym, ap, ◌∙◌, Bool, true, false, ◌||◌, not, Option, none, some, List,
  ◌∷◌, arith,
}
use bgpstream.Addr.{Pfx}
use bgpstream.Patricia.{Node, null, node, Frame, zip_up, is_null, is_glue, maxbits, node_create}
use bgpstream.Patricia.Removal.{remove_node, remove_leaf}
use bgpstream.Patricia.Bits.{Bits, Agree}
use bgpstream.Patricia.Valid.{
  bits, with_bit, IsHead, IsTree, same_pfx, is_entry, has, Agree-trans, Agree-sym,
}
use bgpstream.Patricia.Search.{prefix_of, absent_short}
use bgpstream.Patricia.Path.{
  IsPath, IsPath-cong, IsFrameHead, IsFrameHead-cong, has_path, has-zip_up,
}
use bgpstream.Patricia.Descend.{NodeParts}
use bgpstream.Patricia.Entries.{
  same_pfx_refl, same_pfx_cong, absent_path, IsClear, IsCleared, IsCleared-zip_up, IsInserted,
  inserted, node_create-IsTree, has-node_create,
}

-- The prefix belongs at the node, which is glue, or has it already.
module _ (pfx : Pfx) (t : Bits) (path : List Frame) (b : ℕ) (user : Option ℕ) (l r : Node)
    (h : IsPath t b path) (same : pfx.mask_len ≡ b) (g : Agree (bits pfx) t b) where
  undo_glue :
      IsCleared (node b none user l r)
      → (is_null l ≡ false) × (is_null r ≡ false)
      → true ≡ true
      → (remove_node (record { path = path; here = node b (some pfx) user l r })).tree
        ≡ zip_up path (node b none user l r)
  unfolding remove_node is_glue IsCleared IsClear
  undo_glue clear (on_l, on_r) e = rw (on_l, on_r, clear.0) refl

  pub place_glue :
      IsTree t b (node b none user l r)
      → IsInserted pfx (zip_up path (node b none user l r)) (record {
        loc = record { path = path; here = node b (some pfx) user l r };
        counted = true;
      })
  unfolding has is_entry
  place_glue tree =
      let (p, top, (v, e, head, left, right)) : NodeParts t b b none l r = unfold IsTree in tree in
      let on_path = absent_path pfx t b path h (omega (arith, same)) g in
      let on_left = absent_short pfx v b false l left (omega (arith, same)) in
      let on_right = absent_short pfx v b true r right (omega (arith, same)) in
      inserted pfx (zip_up path (node b none user l r)) t b path (node b (some pfx) user l r) true h
        (unfold IsTree IsHead in
          (p, top, (v, e, (same, Agree-trans (bits pfx) t v b g (Agree-sym v t b e)), left, right)))
        (unfold is_null in refl) (λ q. rw (has-zip_up q path (node b none user l r)) (ground arith))
        (unfold prefix_of in same_pfx_refl pfx)
        (rw (has-zip_up pfx path (node b none user l r), on_path, on_left, on_right) refl)
        (λ clear.
          undo_glue (IsCleared-zip_up path (node b none user l r) clear) (unfold IsHead in head))

  pub place_same :
      (old : Pfx)
      → IsTree t b (node b (some old) user l r)
      → IsInserted pfx (zip_up path (node b (some old) user l r)) (record {
        loc = record { path = path; here = node b (some old) user l r };
        counted = false;
      })
  unfolding has is_entry
  place_same old tree =
      let (p, top, (v, e, head, left, right)) : NodeParts t b b (some old) l r =
        unfold IsTree in tree in
      let (len, agree) : (old.mask_len ≡ b) × Agree (bits old) v b = unfold IsHead in head in
      let equal : (q : Pfx) → same_pfx pfx q ≡ same_pfx old q = λ q.
        same_pfx_cong pfx old q (same ∙ sym len) (λ i x.
          g i (omega (arith, same))
          ∙ sym (e i (omega (arith, same)))
          ∙ sym (agree i (omega (arith, same)))) in
      let entry : same_pfx old pfx ≡ true = sym (equal pfx) ∙ same_pfx_refl pfx in
      inserted pfx (zip_up path (node b (some old) user l r)) t b path (node b (some old) user l r)
        false h tree (unfold is_null in refl)
        (λ q. rw (has-zip_up q path (node b (some old) user l r), equal q) (ground arith))
        (unfold prefix_of in entry)
        (rw (has-zip_up pfx path (node b (some old) user l r), entry) refl)
        (λ clear e. absurd (cc e))

undo_leaf :
    (pfx : Pfx) (path : List Frame)
    → (remove_node (record { path = path; here = node_create pfx })).tree ≡ remove_leaf path
unfolding remove_node node_create is_glue is_null
undo_leaf pfx path = refl

pub is_null-null : (n : Node) → is_null n ≡ true → n ≡ null
unfolding is_null
is_null-null null e = refl
is_null-null (node b prefix user l r) e = absurd (cc e)

-- The prefix goes below the node, where the node has no child, or below a new glue node: `other` is
-- what stays on the other side.
pub place_below :
    (pfx : Pfx) (t : Bits) (path : List Frame) (b : ℕ) (prefix : Option Pfx) (user : Option ℕ)
    (c : Bool) (other tree : Node)
    → IsPath t b path
    → b < pfx.mask_len
    → pfx.mask_len ≤ maxbits
    → Agree (bits pfx) t b
    → c ≡ bits pfx b
    → IsTree (with_bit (bits pfx) b (not c)) (b + 1) other
    → IsFrameHead t b prefix other
    → ((q : Pfx) → has q tree ≡ (is_entry q prefix || (has q other || has_path q path)))
    → remove_leaf
        (record { bit = b; prefix = prefix; user = user; right = c; other = other } ∷ path)
      ≡ tree
    → IsInserted pfx tree (record {
      loc = record {
        path = record { bit = b; prefix = prefix; user = user; right = c; other = other } ∷ path;
        here = node_create pfx;
      };
      counted = true;
    })
unfolding same_pfx is_entry has_path
place_below pfx t path b prefix user c other tree h p m g turn t_other head same undo =
    let on_path : IsPath (bits pfx) (b + 1)
        (record { bit = b; prefix = prefix; user = user; right = c; other = other } ∷ path) =
      unfold IsPath in
      (
        omega arith,
        omega arith,
        turn,
        t_other,
        IsFrameHead-cong t (bits pfx) b prefix other (Agree-sym (bits pfx) t b g) head,
        IsPath-cong t (bits pfx) b path (Agree-sym (bits pfx) t b g) h,
      ) in
    inserted pfx tree (bits pfx) (b + 1)
      (record { bit = b; prefix = prefix; user = user; right = c; other = other } ∷ path)
      (node_create pfx) true on_path (node_create-IsTree pfx (b + 1) (omega arith) m)
      (unfold is_null node_create in refl)
      (λ q. unfold has_path in rw (has-node_create pfx q, same q) refl)
      (unfold prefix_of node_create is_entry in same_pfx_refl pfx)
      (rw (same pfx)
        (ap not (sym (absent_path pfx (bits pfx) (b + 1) _ on_path (omega arith) (λ i q. refl)))))
      (λ clear e. undo_leaf pfx _ ∙ undo)
