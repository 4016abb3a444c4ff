-- ===== src/Patricia/RoundTrip.antt =====
-- bgpstream_patricia_tree_remove by prefix, and the removal of what insert returns.
use mathlib.Core.Path.{subst}
use bgpstream.Base.{
  ◌≤◌, ◌≡◌, inl, inr, refl, sym, ap, ◌∙◌, true, false, ◌&&◌, not, none, some, List, arith,
  Bool-cases,
}
use bgpstream.Addr.{Pfx}
use bgpstream.Patricia.{
  Node, null, node, Frame, zip_up, root, is_null, maxbits, insert_node, Inserted,
}
use bgpstream.Patricia.Removal.{remove_node, remove}
use bgpstream.Patricia.Bits.{Bits}
use bgpstream.Patricia.Valid.{IsTree, IsTree-cong, same_pfx, same_pfx-parts, is_entry, has}
use bgpstream.Patricia.Search.{prefix_of, missing, found, search_exact-Searched}
use bgpstream.Patricia.Entries.{same_pfx_cong, same_pfx_intro, IsCleared}
use bgpstream.Patricia.Insert.{insert_node-IsInserted}
use bgpstream.Patricia.Locate.{zip_up-IsPlace}
use bgpstream.Patricia.Remove.{IsRemoved}
use bgpstream.Patricia.RemoveNode.{remove_node-IsRemoved}

pub same_pfx_turn : (p q : Pfx) → same_pfx p q ≡ true → same_pfx q p ≡ true
same_pfx_turn p q e =
    let (len, agree) = same_pfx-parts p q e in
    same_pfx_intro q p (sym len) (λ i x. sym (agree i (omega (arith, len))))

same_pfx_comm : (p q : Pfx) → same_pfx p q ≡ same_pfx q p
same_pfx_comm p q = elim (Bool-cases (same_pfx p q)) [
  | inl same ↦ same ∙ sym (same_pfx_turn p q same)
  | inr other ↦ elim (Bool-cases (same_pfx q p)) [
    | inl turned ↦ absurd (cc (other, same_pfx_turn q p turned))
    | inr both ↦ other ∙ sym both
  ]
]

same_pfx_swap : (x p q : Pfx) → same_pfx p q ≡ true → same_pfx x p ≡ same_pfx x q
same_pfx_swap x p q e =
    let (len, agree) = same_pfx-parts p q e in
    same_pfx_comm x p
    ∙ same_pfx_cong p q x len (λ i r. agree i (omega (arith, len)))
    ∙ sym (same_pfx_comm x q)

-- Two ways to write one prefix are in the same trees.
pub has_cong : (p q : Pfx) (n : Node) → same_pfx p q ≡ true → has p n ≡ has q n
unfolding has is_entry
has_cong p q null e = refl
has_cong p q (node b none user l r) e = rw (has_cong p q l e, has_cong p q r e) refl
has_cong p q (node b (some x) user l r) e =
    rw (has_cong p q l e, has_cong p q r e, same_pfx_swap x p q e) refl

-- A removal by prefix, of the node that was found.
remove_found :
    (pfx : Pfx) (w : Bits) (path : List Frame) (n : Node)
    → IsTree w 0 (zip_up path n)
    → is_entry pfx (prefix_of n) ≡ true
    → IsRemoved pfx (zip_up path n) (remove_node (record { path = path; here = n })).tree
unfolding is_entry prefix_of
remove_found pfx w path null t e = absurd (cc e)
remove_found pfx w path (node b none user l r) t e = absurd (cc e)
remove_found pfx w path (node b (some p) user l r) t e =
    let (v, d, h, u) =
      zip_up-IsPlace path (node b (some p) user l r) w (unfold is_null in refl) t in
    let done = remove_node-IsRemoved path b p user l r v d h u in
    let (len, agree) = same_pfx-parts p pfx e in
    record {
      valid = done.valid;
      entries = λ q.
          rw (done.entries q, same_pfx_cong p pfx q len (λ i x. agree i (omega (arith, len)))) refl;
    }

remove_missing :
    (pfx : Pfx) (head : Node)
    → has pfx head ≡ false
    → (q : Pfx) → has q head ≡ (has q head && not (same_pfx pfx q))
remove_missing pfx head absent q = elim (Bool-cases (same_pfx pfx q)) [
  | inl same ↦ rw (same, sym (has_cong pfx q head same), absent) refl
  | inr other ↦ rw other (ground arith)
]

-- In a well-formed tree remove takes the prefix out and nothing else, and the tree stays well-formed.
pub remove-IsRemoved :
    (head : Node) (pfx : Pfx) (w : Bits)
    → IsTree w 0 head
    → IsRemoved pfx head (remove head pfx).tree
unfolding remove
remove-IsRemoved head pfx w t = elim (search_exact-Searched head pfx w t) [
  | missing absent e ↦
      rw (remove, e)
        (record {
          valid = λ v. IsTree-cong w v 0 head (λ i p. absurd (omega arith)) t;
          entries = remove_missing pfx head absent;
        })
  | found there loc e same entry ↦
      let tree : zip_up loc.path loc.here ≡ head = unfold zip_up root in same in
      rw (remove, e)
        (subst (λ n. IsRemoved pfx n (remove_node loc).tree) tree
          (remove_found pfx w loc.path loc.here (subst (λ n. IsTree w 0 n) (sym tree) t) entry))
]

-- The removal of a node that insert has made gives back the tree that there was, if the prefix was not in
-- it and its glue nodes have no user data.
remove_node-insert_node :
    (head : Node) (pfx : Pfx) (w : Bits)
    → IsTree w 0 head
    → IsCleared head
    → pfx.mask_len ≤ maxbits
    → has pfx head ≡ false
    → (done : Inserted) × (insert_node head pfx ≡ some done) × ((remove_node done.loc).tree ≡ head)
remove_node-insert_node head pfx w t clear m absent =
    let (done, e, i) = insert_node-IsInserted head pfx w t m in
    (done, e, i.undo clear (i.counts ∙ ap not absent))
