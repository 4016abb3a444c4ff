-- ===== src/Patricia/Overlap.antt =====
-- node_overlap and pfx_overlap on a well-formed tree.
use mathlib.Core.Path.{subst}
use bgpstream.Base.{
  ℕ, ◌+◌, ◌≤◌, ◌≡◌, ◌↔◌, inl, inr, refl, sym, ap, ◌∙◌, Bool, true, false, ◌&&◌, ◌||◌, not, Option,
  none, some, List, [], ◌∷◌, arith, Bool-cases, Option-cases,
}
use bgpstream.Addr.{Pfx}
use bgpstream.Patricia.{Node, null, node, Frame, zip_up, root, is_null, is_glue, maxbits}
use bgpstream.Patricia.Results.{find_more_specific, find_less_specific, more_of}
use bgpstream.Patricia.Looks.{Overlap, Looked, node_overlap, pfx_overlap}
use bgpstream.Patricia.Bits.{Bits}
use bgpstream.Patricia.Valid.{bits, with_bit, IsTree, same_pfx, same_pfx-parts, is_entry, has}
use bgpstream.Patricia.Search.{prefix_of, missing, found, search_exact-Searched}
use bgpstream.Patricia.Descend.{NodeParts}
use bgpstream.Patricia.Entries.{same_pfx_refl, IsCleared}
use bgpstream.Patricia.Insert.{insert_node-IsInserted}
use bgpstream.Patricia.Covers.{covers, covers_intro, covers_parts, on_path}
use bgpstream.Patricia.Specifics.{on_path-has, below-has}
use bgpstream.Patricia.Locate.{zip_up-IsPlace}
use bgpstream.Patricia.RoundTrip.{same_pfx_turn}

-- A subtree has a prefix if it is not empty.
find_more_specific-has :
    (n : Node) (w : Bits) (d : ℕ)
    → IsTree w d n
    → (find_more_specific n ≡ true) ↔ ((q : Pfx) × (has q n ≡ true))
unfolding find_more_specific has is_glue is_entry
find_more_specific-has null w d t = (λ e. absurd (cc e), λ (q, e). absurd (cc e))
find_more_specific-has (node b (some pfx) user l r) w d t =
    (λ e. (pfx, rw (same_pfx_refl pfx) refl), λ h. refl)
find_more_specific-has (node b none user l r) w d t =
    let (p, top, (v, g, head, left, right)) : NodeParts w d b none l r = unfold IsTree in t in
    let on_left = find_more_specific-has l (with_bit v b false) (b + 1) left in
    let on_right = find_more_specific-has r (with_bit v b true) (b + 1) right in
    (
      λ e. elim (Bool-cases (find_more_specific l)) [
        | inl one ↦ let (q, there) = on_left.0 one in (q, rw there refl)
        | inr past ↦ elim (Bool-cases (find_more_specific r)) [
          | inl one ↦ let (q, there) = on_right.0 one in (q, rw there (ground arith))
          | inr no_one ↦ absurd (cc (rw (past, no_one) at e))
        ]
      ],
      λ (q, e). elim (Bool-cases (has q l)) [
        | inl there ↦ rw (on_left.1 (q, there)) refl
        | inr past ↦ rw (on_right.1 (q, rw past at e)) (ground arith)
      ],
    )

find_less_specific-on_path :
    (path : List Frame) → (find_less_specific path ≡ true) ↔ ((q : Pfx) × (on_path q path ≡ true))
unfolding find_less_specific on_path is_glue is_entry
find_less_specific-on_path [] = (λ e. absurd (cc e), λ (q, e). absurd (cc e))
find_less_specific-on_path (f ∷ path) = elim (Option-cases f.prefix) [
  | inl glue ↦ rw glue (find_less_specific-on_path path)
  | inr (pfx, e) ↦ rw e ((λ h. (pfx, rw (same_pfx_refl pfx) refl), λ h. refl))
]

-- What a mask says of a prefix and a tree.
pub record IsOverlap (pfx : Pfx) (tree : Node) (o : Overlap) : Type 0 where
  pub less : (o.less_specifics ≡ true) ↔ ((q : Pfx) × ((has q tree && covers q pfx) ≡ true))
  pub exact : o.exact_match ≡ has pfx tree
  pub more : (o.more_specifics ≡ true) ↔ ((q : Pfx) × ((has q tree && covers pfx q) ≡ true))

more_of-has :
    (b : ℕ) (prefix : Option Pfx) (user : Option ℕ) (l r : Node) (v w : Bits) (d : ℕ)
    → IsTree v d l
    → IsTree w d r
    → (more_of (node b prefix user l r) ≡ true) ↔ ((q : Pfx) × ((has q l || has q r) ≡ true))
unfolding more_of
more_of-has b prefix user l r v w d left right =
    let on_left = find_more_specific-has l v d left in
    let on_right = find_more_specific-has r w d right in
    (
      λ e. elim (Bool-cases (find_more_specific l)) [
        | inl one ↦ let (q, there) = on_left.0 one in (q, rw there refl)
        | inr past ↦ let (q, there) = on_right.0 (rw past at e) in (q, rw there (ground arith))
      ],
      λ (q, e). elim (Bool-cases (has q l)) [
        | inl there ↦ rw (on_left.1 (q, there)) refl
        | inr past ↦ rw (on_right.1 (q, rw past at e)) (ground arith)
      ],
    )

-- The mask of a node, for the prefix that the node has.
module _ (path : List Frame) (b : ℕ) (p : Pfx) (user : Option ℕ) (l r : Node) (w : Bits)
    (t : IsTree w 0 (zip_up path (node b (some p) user l r))) where
  node_less :
      (find_less_specific path ≡ true)
      ↔ ((q : Pfx) × ((has q (zip_up path (node b (some p) user l r)) && covers q p) ≡ true))
  node_less =
      let ancestors = find_less_specific-on_path path in
      let same = on_path-has path b p user l r w t in
      (
        λ e. let (q, there) = ancestors.0 e in (q, sym (same q) ∙ there),
        λ (q, e). ancestors.1 (q, same q ∙ e),
      )

  node_more :
      (more_of (node b (some p) user l r) ≡ true)
      ↔ ((q : Pfx) × ((has q (zip_up path (node b (some p) user l r)) && covers p q) ≡ true))
  node_more =
      let (v, d, h, u) =
        zip_up-IsPlace path (node b (some p) user l r) w (unfold is_null in refl) t in
      let (low, top, (x, g, head, left, right)) : NodeParts v d b (some p) l r =
        unfold IsTree in u in
      let below =
        more_of-has b (some p) user l r (with_bit x b false) (with_bit x b true) (b + 1) left
          right in
      let same = below-has path b p user l r w t in
      (
        λ e. let (q, there) = below.0 e in (q, sym (same q) ∙ there),
        λ (q, e). below.1 (q, same q ∙ e),
      )

same_truth : (a b : Bool) → (a ≡ true → b ≡ true) → (b ≡ true → a ≡ true) → a ≡ b
same_truth true b f g = sym (f refl)
same_truth false true f g = absurd (cc (g refl))
same_truth false false f g = refl

-- Two ways to write one prefix cover the same, and are covered by the same.
covers_same : (p p' q : Pfx) → same_pfx p p' ≡ true → covers q p ≡ true → covers q p' ≡ true
covers_same p p' q e h =
    let (len, agree) = same_pfx-parts p p' e in
    let (short, over) = covers_parts q p h in
    covers_intro q p' (omega (arith, short, len))
      (λ i x. over i x ∙ agree i (omega (arith, short, len)))

same_covers : (p p' q : Pfx) → same_pfx p p' ≡ true → covers p q ≡ true → covers p' q ≡ true
same_covers p p' q e h =
    let (len, agree) = same_pfx-parts p p' e in
    let (short, over) = covers_parts p q h in
    covers_intro p' q (omega (arith, short, len))
      (λ i x. sym (agree i x) ∙ over i (omega (arith, len)))

-- The mask of a node, for a prefix that is the node's.
overlap_at :
    (pfx : Pfx) (w : Bits) (path : List Frame) (n : Node)
    → IsTree w 0 (zip_up path n)
    → is_entry pfx (prefix_of n) ≡ true
    → let o = node_overlap (record { path = path; here = n }) in
      ((o.less_specifics ≡ true) ↔ ((q : Pfx) × ((has q (zip_up path n) && covers q pfx) ≡ true)))
      × ((o.more_specifics ≡ true) ↔ ((q : Pfx) × ((has q (zip_up path n) && covers pfx q) ≡ true)))
unfolding is_entry prefix_of node_overlap
overlap_at pfx w path null t e = absurd (cc e)
overlap_at pfx w path (node b none user l r) t e = absurd (cc e)
overlap_at pfx w path (node b (some p) user l r) t e =
    let tree = zip_up path (node b (some p) user l r) in
    let back = same_pfx_turn p pfx e in
    let over : (q : Pfx) → (has q tree && covers q p) ≡ (has q tree && covers q pfx) = λ q.
      ap (λ x. has q tree && x)
        (same_truth _ _ (covers_same p pfx q e) (covers_same pfx p q back)) in
    let under : (q : Pfx) → (has q tree && covers p q) ≡ (has q tree && covers pfx q) = λ q.
      ap (λ x. has q tree && x)
        (same_truth _ _ (same_covers p pfx q e) (same_covers pfx p q back)) in
    let less = node_less path b p user l r w t in
    let more = node_more path b p user l r w t in
    (
      (
        λ h. let (q, there) = less.0 h in (q, sym (over q) ∙ there),
        λ (q, h). less.1 (q, over q ∙ h),
      ),
      (
        λ h. let (q, there) = more.0 h in (q, sym (under q) ∙ there),
        λ (q, h). more.1 (q, under q ∙ h),
      ),
    )

-- A prefix does not cover itself.
covers_itself : (p q : Pfx) → same_pfx p q ≡ true → (covers q p ≡ false) × (covers p q ≡ false)
unfolding covers
covers_itself p q e =
    let (len, agree) = same_pfx-parts p q e in (ground (arith, len), ground (arith, len))

ignore : (s h c : Bool) → (s ≡ true → c ≡ false) → ((s || h) && c) ≡ (h && c)
ignore true h c k = rw (k refl) (ground arith)
ignore false h c k = refl

-- On a well-formed tree whose glue nodes have no user data, pfx_overlap leaves the tree as it
-- was; its mask says exactly whether the tree has the prefix, a less specific one, and a more specific one.
pub pfx_overlap-IsOverlap :
    (head : Node) (pfx : Pfx) (w : Bits)
    → IsTree w 0 head
    → IsCleared head
    → pfx.mask_len ≤ maxbits
    → (looked : Looked) × (pfx_overlap head pfx ≡ some looked)
      × (looked.tree ≡ head)
      × IsOverlap pfx head looked.overlap
unfolding pfx_overlap zip_up
pfx_overlap-IsOverlap head pfx w t clear m = elim (search_exact-Searched head pfx w t) [
  | found there loc e same entry ↦
      let tree : zip_up loc.path loc.here ≡ head = unfold root in same in
      let (less, more) =
        overlap_at pfx w loc.path loc.here (subst (λ n. IsTree w 0 n) (sym tree) t) entry in
      rw (pfx_overlap, e)
        (
          _,
          refl,
          refl,
          record {
            less = rw tree at less;
            exact = unfold node_overlap in sym there;
            more = rw tree at more;
          },
        )
  | missing absent e ↦
      let (done, inserts, i) = insert_node-IsInserted head pfx w t m in
      let (less, more) =
        overlap_at pfx (bits pfx) done.loc.path done.loc.here (unfold root in i.valid) i.entry in
      let over : (q : Pfx)
          → (has q (root done.loc) && covers q pfx) ≡ (has q head && covers q pfx) =
        λ q.
          ap (λ x. x && covers q pfx) (i.entries q)
          ∙ ignore (same_pfx pfx q) (has q head) (covers q pfx) (λ s. (covers_itself pfx q s).0) in
      let under : (q : Pfx)
          → (has q (root done.loc) && covers pfx q) ≡ (has q head && covers pfx q) =
        λ q.
          ap (λ x. x && covers pfx q) (i.entries q)
          ∙ ignore (same_pfx pfx q) (has q head) (covers pfx q) (λ s. (covers_itself pfx q s).1) in
      rw (pfx_overlap, e, inserts)
        (
          _,
          refl,
          i.undo clear (i.counts ∙ ap not absent),
          record {
            less = (
              λ h. let (q, there) = less.0 h in (q, sym (over q) ∙ (unfold root in there)),
              λ (q, h). less.1 (q, unfold root in over q ∙ h),
            );
            exact = sym absent;
            more = (
              λ h. let (q, there) = more.0 h in (q, sym (under q) ∙ (unfold root in there)),
              λ (q, h). more.1 (q, unfold root in under q ∙ h),
            );
          },
        )
]
