-- ===== src/Patricia/Insert.antt =====
-- bgpstream_patricia_tree_insert on a well-formed tree.
use bgpstream.Base.{
  ℕ, ◌≤◌, ◌<◌, ◌≡◌, ◌≢◌, ◌⊎◌, inl, inr, refl, sym, ap, ◌∙◌, true, false, ◌&&◌, Option, none, some,
  List, [], arith, ltb, ◌==◌, if◌then◌else◌, Bool-cases,
}
use bgpstream.Addr.{Pfx}
use bgpstream.Patricia.{
  bit_at, Node, null, node, Frame, Loc, zip_up, is_null, is_glue, maxbits, node_create, descend,
  differ_bit, place, insert_from, insert_node, Inserted,
}
use bgpstream.Patricia.Removal.{remove_node, remove_leaf}
use bgpstream.Patricia.Bits.{Bits, Agree, IsCommon, differ_bit-IsCommon}
use bgpstream.Patricia.Valid.{bits, IsTree, same_pfx, is_entry, has, Agree-le}
use bgpstream.Patricia.Search.{prefix_of}
use bgpstream.Patricia.Path.{IsPath, has_path}
use bgpstream.Patricia.Descend.{child_of, Stopped, stopped, descend-Stopped}
use bgpstream.Patricia.Climb.{Climbed, climbed, climb-Climbed}
use bgpstream.Patricia.Entries.{
  IsInserted, inserted, node_create-IsTree, has-node_create, same_pfx_refl,
}
use bgpstream.Patricia.Below.{place_glue, place_same}
use bgpstream.Patricia.Place.{place_child, place_fork, place_parent}

unfoldable bit_of : Node → ℕ
bit_of null = 0
bit_of (node b prefix user l r) = b

put_same :
    (pfx : Pfx) (t : Bits) (path : List Frame) (b : ℕ) (prefix : Option Pfx) (user : Option ℕ)
    (l r : Node)
    → IsPath t b path
    → pfx.mask_len ≡ b
    → Agree (bits pfx) t b
    → IsTree t b (node b prefix user l r)
    → IsInserted pfx (zip_up path (node b prefix user l r)) (
        if is_glue prefix
        then record {
          loc = record { path = path; here = node b (some pfx) user l r };
          counted = true;
        }
        else record {
          loc = record { path = path; here = node b prefix user l r };
          counted = false;
        })
unfolding is_glue
put_same pfx t path b none user l r h same g tree = place_glue pfx t path b user l r h same g tree
put_same pfx t path b (some old) user l r h same g tree =
    place_same pfx t path b user l r h same g old tree

-- Where the climb ends is where the prefix is put.
module _ (pfx : Pfx) (m : pfx.mask_len ≤ maxbits) (test : Pfx) (b0 : ℕ) (user0 : Option ℕ)
    (l0 r0 : Node) (differ : ℕ)
    (common : IsCommon pfx.address test.address
      (if ltb b0 pfx.mask_len then b0 else pfx.mask_len)
      differ)
    (empty : b0 < pfx.mask_len
      → is_null (child_of pfx.address (node b0 (some test) user0 l0 r0)) ≡ true) where
  bounds : (differ ≤ pfx.mask_len) × (differ ≤ b0)
  bounds = let w = common.within in (ground arith, ground arith)

  unequal : differ < pfx.mask_len → differ < b0 → bits pfx differ ≢ bits test differ
  unequal p q =
      let inside : differ < (if ltb b0 pfx.mask_len then b0 else pfx.mask_len) = ground arith in
      common.differs inside

  module _ (path : List Frame) (b : ℕ) (prefix : Option Pfx) (user : Option ℕ) (l r : Node)
      (h : IsPath (bits test) b path) (low : IsPath (bits test) differ path)
      (tree : IsTree (bits test) b (node b prefix user l r)) (limit : b ≤ b0)
      (came : (node b prefix user l r ≡ node b0 (some test) user0 l0 r0)
        ⊎ ((differ ≤ b) × (b < b0) × (bit_at pfx.address b ≡ bits test b))) where
    differ_le : differ ≤ b
    differ_le = elim came [
      | inl start ↦ let e : b ≡ b0 = unfold bit_of in ap bit_of start in omega (arith, e, bounds.1)
      | inr (p, _, _) ↦ p
    ]

    no_child :
        b ≡ differ
        → differ < pfx.mask_len
        → is_null (child_of pfx.address (node b prefix user l r)) ≡ true
    no_child e p = elim came [
      | inl start ↦
          let same : b ≡ b0 = unfold bit_of in ap bit_of start in
          ap (λ n. is_null (child_of pfx.address n)) start ∙ empty (omega (arith, same, e, p))
      | inr (_, q, same) ↦
          absurd (unequal p (omega (arith, q, e)) (ap (bits pfx) (sym e) ∙ same ∙ ap (bits test) e))
    ]

    pub put :
        IsInserted pfx
          (zip_up path (node b prefix user l r))
          (place pfx test.address differ path (node b prefix user l r))
    unfolding place
    put = elim (Bool-cases (differ == pfx.mask_len && b == pfx.mask_len)) [
      | inl same ↦ rw same (
          put_same pfx (bits test) path b prefix user l r h (ground arith)
            (Agree-le (bits pfx) (bits test) b differ (ground arith) common.agree) tree)
      | inr other ↦ elim (Bool-cases (b == differ)) [
        | inl child ↦
            let e : b ≡ differ = ground arith in
            let p : differ < pfx.mask_len = ground (arith, bounds.0) in
            rw (other, child)
              (place_child pfx (bits test) path b prefix user l r tree m h (omega arith)
                (Agree-le (bits pfx) (bits test) b differ (omega arith) common.agree)
                (no_child e p))
        | inr apart ↦
            let under : differ < b = ground (arith, differ_le) in
            elim (Bool-cases (pfx.mask_len == differ)) [
              | inl parent ↦
                  let e : differ ≡ pfx.mask_len = ground arith in
                  rw (other, apart, parent)
                    (place_parent pfx (bits test) path b prefix user l r tree m test.address refl
                      (rw e at low) (omega arith)
                      (Agree-le (bits pfx) (bits test) pfx.mask_len differ (omega arith)
                        common.agree))
              | inr fork ↦
                  let p : differ < pfx.mask_len = ground (arith, bounds.0) in
                  rw (other, apart, fork)
                    (place_fork pfx (bits test) path b prefix user l r tree m differ low under p
                      common.agree (unequal p (omega arith)))
            ]
      ]
    ]

-- insert behind the navigation.
abbrev Inserts : Pfx → Node → Option Inserted → Type 0
Inserts pfx tree result = (done : Inserted) × (result ≡ some done) × IsInserted pfx tree done

insert_climb :
    (pfx : Pfx) (test : Pfx) (b0 : ℕ) (user0 : Option ℕ) (l0 r0 : Node) (differ : ℕ) (tree : Node)
    (loc : Loc)
    → pfx.mask_len ≤ maxbits
    → IsCommon pfx.address test.address (if ltb b0 pfx.mask_len then b0 else pfx.mask_len) differ
    → (b0 < pfx.mask_len → is_null (child_of pfx.address (node b0 (some test) user0 l0 r0)) ≡ true)
    → Climbed pfx.address differ b0 (bits test) (node b0 (some test) user0 l0 r0) tree loc
    → IsInserted pfx tree (place pfx test.address differ loc.path loc.here)
insert_climb pfx test b0 user0 l0 r0 differ _ _ m common empty
      (climbed path b prefix user l r e h low t follows limit came) =
    rw e at
      (put pfx m test b0 user0 l0 r0 differ common empty path b prefix user l r h low t limit came)

insert_from-IsInserted :
    (pfx : Pfx) (tree : Node) (loc : Loc)
    → pfx.mask_len ≤ maxbits
    → Stopped pfx.address pfx.mask_len tree loc
    → Inserts pfx tree (insert_from pfx loc)
unfolding insert_from
insert_from-IsInserted pfx tree _ m (stopped path b test user l r e h t follows last) =
    let check_bit = if ltb b pfx.mask_len then b else pfx.mask_len in
    let differ = differ_bit pfx.address test.address check_bit in
    let common = differ_bit-IsCommon pfx.address test.address check_bit (ground arith) in
    let top =
      climb-Climbed pfx.address differ b (bits test) (node b (some test) user l r) path b
        (some test) user l r h t follows (omega arith) (inl refl) in
    (
      _,
      refl,
      rw e at (
          insert_climb pfx test b user l r differ (zip_up path (node b (some test) user l r)) _ m
            common last top),
    )

-- On a well-formed tree insert returns a node: the tree stays well-formed, and has the prefix and all
-- that it had, and nothing else; the node has the prefix; and the insert counts a new active node
-- exactly when the prefix was not in the tree. The removal of a node that was new gives back the tree, if
-- its glue nodes have no user data.
pub insert_node-IsInserted :
    (head : Node) (pfx : Pfx) (w : Bits)
    → IsTree w 0 head
    → pfx.mask_len ≤ maxbits
    → Inserts pfx head (insert_node head pfx)
unfolding insert_node zip_up descend
insert_node-IsInserted null pfx w t m = (
  _,
  refl,
  inserted pfx null (bits pfx) 0 [] (node_create pfx) true (unfold IsPath in tt)
      (node_create-IsTree pfx 0 (omega arith) m) (unfold is_null node_create in refl)
      (λ q. rw (has-node_create pfx q) (unfold has has_path in refl))
      (unfold is_entry prefix_of node_create same_pfx in unfold same_pfx in same_pfx_refl pfx)
      (unfold has in refl)
      (λ clear e. unfold remove_node node_create is_glue is_null remove_leaf in refl),
)
insert_node-IsInserted (node b prefix user l r) pfx w t m =
    insert_from-IsInserted pfx (node b prefix user l r) _ m (
      descend-Stopped pfx.address pfx.mask_len w 0 [] (node b prefix user l r) (unfold IsPath in tt)
        t (unfold is_null in refl) tt)
