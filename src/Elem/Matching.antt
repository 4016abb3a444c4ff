-- ===== src/Elem/Matching.antt =====
-- The prefix filters of an element, where all prefixes of the tree allow any match.
use mathlib.Core.Path.{subst}
use bgpstream.Base.{
  ℕ, ◌+◌, ◌≤◌, ◌≡◌, ◌↔◌, inl, inr, refl, sym, ap, ◌∙◌, Bool, true, false, ◌&&◌, ◌||◌, not, Option,
  none, some, List, arith, Bool-cases,
}
use bgpstream.Addr.{Pfx}
use bgpstream.Patricia.{Node, null, node, Frame, maxbits, search_exact, insert_node, Inserted}
use bgpstream.Patricia.Bits.{Bits}
use bgpstream.Patricia.Valid.{IsTree, same_pfx, is_entry, has}
use bgpstream.Patricia.Search.{prefix_of, missing, found, search_exact-Searched}
use bgpstream.Patricia.Removal.{remove_node}
use bgpstream.Patricia.Results
use bgpstream.Patricia.Results.{
  ResultSet, get_less_specifics, get_more_specifics, find_less_specific, find_more_specific,
  more_of,
}
use bgpstream.Patricia.Looks.{Overlap, Looked, node_overlap}
use bgpstream.Patricia.RoundTrip.{has_cong}
use bgpstream.Patricia.Entries.{same_pfx_refl, IsCleared}
use bgpstream.Patricia.Insert.{insert_node-IsInserted}
use bgpstream.Patricia.Covers.{covers}
use bgpstream.Patricia.OverlapInfo.{missing_look}
use bgpstream.Patricia.Overlap.{IsOverlap, pfx_overlap-IsOverlap}
use bgpstream.Elem.{match_more, match_less, scan_all, match_inserted}
use bgpstream.Elem.Allowed.{IsAny, IsAnyPath, around-IsAny}
use bgpstream.Elem.Listed.{
  IsList, is_listed, add_less_specifics-IsList, add_more_specifics-IsList, scan_all-IsList,
}

-- What is said of a node, by the mask of its overlap.
unfoldable pub overlaps : Overlap → Bool
overlaps o = o.exact_match || (o.less_specifics || o.more_specifics)

below-IsList :
    (path : List Frame) (b : ℕ) (p : Pfx) (user : Option ℕ) (l r : Node) (set : ResultSet)
    → IsAny l
    → IsAny r
    → IsList 0 false set
    → IsList 0
        (more_of (node b (some p) user l r))
        (get_more_specifics (record { path = path; here = node b (some p) user l r }) set)
unfolding get_more_specifics
below-IsList path b p user l r set on_left on_right h =
    let empty : IsList 0 false (Results.clear set) = record {
      place = unfold Results.clear in h.place;
      opened = unfold Results.clear in tt;
      listed = unfold is_listed Results.clear in refl;
    } in
    let same : (find_more_specific l || find_more_specific r) ≡ more_of (node b (some p) user l r) =
      unfold more_of in ground arith in
    subst
      (λ found.
        IsList 0 found
          (get_more_specifics (record { path = path; here = node b (some p) user l r }) set))
      same
      (add_more_specifics-IsList r 0 (find_more_specific l) _ _ (maxbits + 1) on_right
        (add_more_specifics-IsList l 0 false _ (Results.clear set) (maxbits + 1) on_left empty
          (λ z. absurd (omega (arith, z))))
        (λ z. absurd (omega (arith, z))))

match_node :
    (path : List Frame) (b : ℕ) (p : Pfx) (user : Option ℕ) (l r : Node)
    → IsAnyPath path
    → IsAny l
    → IsAny r
    → match_inserted (record { path = path; here = node b (some p) user l r })
      ≡ (find_less_specific path || more_of (node b (some p) user l r))
unfolding match_inserted get_less_specifics
match_node path b p user l r on_path on_left on_right =
    let start : IsList 0 false Results.create = record {
      place = refl;
      opened = tt;
      listed = unfold is_listed in refl;
    } in
    let less =
      add_less_specifics-IsList 0 false path (node b (some p) user l r)
        (Results.clear Results.create) (maxbits + 1) on_path (unfold Results.clear in start)
        (λ z. absurd (omega (arith, z))) in
    let set =
      get_less_specifics (record { path = path; here = node b (some p) user l r }) Results.create in
    let (one, kept) = scan_all-IsList match_more (find_less_specific path) set less in
    elim (Bool-cases (find_less_specific path)) [
      | inl above ↦ rw (one, above) refl
      | inr none_above ↦
          let left = kept none_above in
          let more =
            below-IsList path b p user l r (scan_all match_more set).1 on_left on_right left in
          rw (one, none_above) ((scan_all-IsList match_less _ _ more).0)
    ]

match_at :
    (p : Pfx) (path : List Frame) (n : Node)
    → IsAny (remove_node (record { path = path; here = n })).tree
    → is_entry p (prefix_of n) ≡ true
    → match_inserted (record { path = path; here = n }) ≡ (find_less_specific path || more_of n)
unfolding is_entry prefix_of
match_at p path null a e = absurd (cc e)
match_at p path (node b none user l r) a e = absurd (cc e)
match_at p path (node b (some q) user l r) a e =
    let (on_path, on_left, on_right) = around-IsAny path b q user l r a in
    match_node path b q user l r on_path on_left on_right

-- The mask of the node that insert has made, and the match.
match_done :
    (head : Node) (p : Pfx) (done : Inserted)
    → IsAny head
    → (remove_node done.loc).tree ≡ head
    → is_entry p (prefix_of done.loc.here) ≡ true
    → match_inserted done.loc
      ≡ ((node_overlap done.loc).less_specifics || (node_overlap done.loc).more_specifics)
unfolding node_overlap
match_done head p done a e entry =
    match_at p done.loc.path done.loc.here (subst IsAny (sym e) a) entry

-- The mask in terms of the prefixes.
matches_of :
    (p : Pfx) (head : Node) (o : Overlap)
    → IsOverlap p head o
    → (overlaps o ≡ true)
      ↔ ((q : Pfx) × ((has q head && (same_pfx p q || (covers q p || covers p q))) ≡ true))
unfolding overlaps
matches_of p head o i = (
  λ e. elim (Bool-cases o.exact_match) [
    | inl own ↦ (p, rw (sym i.exact ∙ own, same_pfx_refl p) refl)
    | inr other ↦ elim (Bool-cases o.less_specifics) [
      | inl above ↦ let (q, there) = i.less.0 above in (q, ground arith)
      | inr none_above ↦ let (q, there) = i.more.0 (ground arith) in (q, ground arith)
    ]
  ],
  λ (q, e). elim (Bool-cases (same_pfx p q)) [
    | inl same ↦
        let own : o.exact_match ≡ true = i.exact ∙ has_cong p q head same ∙ (ground arith) in
        rw own refl
    | inr other ↦ elim (Bool-cases (covers q p)) [
      | inl above ↦ rw (i.less.1 (q, ground arith)) (ground arith)
      | inr apart ↦ rw (i.more.1 (q, ground arith)) (ground arith)
    ]
  ],
)

unfoldable overlap_of : Option Looked → Bool
overlap_of none = false
overlap_of (some looked) = overlaps looked.overlap

-- The match in the tree of one version, and the nodes of this tree then.
unfoldable pub prefix_match : Node → Pfx → Option (Bool × Node)
prefix_match head search = elim (search_exact head search) [
  | some loc ↦ some (true, head)
  | none ↦ elim (insert_node head search) [
    | none ↦ none
    | some done ↦ some (match_inserted done.loc, (remove_node done.loc).tree)
  ]
]

-- On a well-formed tree whose glue nodes have no user data and whose prefixes all allow any match, it
-- leaves the nodes as they were, and matches exactly if the tree has the prefix, one that covers it, or
-- one that it covers.
pub prefix_match-covers :
    (head : Node) (p : Pfx) (w : Bits)
    → IsTree w 0 head
    → IsCleared head
    → IsAny head
    → p.mask_len ≤ maxbits
    → (matched : Bool) × (prefix_match head p ≡ some (matched, head))
      × ((matched ≡ true)
          ↔ ((q : Pfx) × ((has q head && (same_pfx p q || (covers q p || covers p q))) ≡ true)))
unfolding prefix_match
prefix_match-covers head p w t clear a m =
    let (looked, e, same, i) = pfx_overlap-IsOverlap head p w t clear m in
    let spec = matches_of p head looked.overlap i in
    elim (search_exact-Searched head p w t) [
      | found there loc s tree entry ↦
          let own : (has p head && (same_pfx p p || (covers p p || covers p p))) ≡ true =
            rw (there, same_pfx_refl p) refl in
          rw (prefix_match, s) (true, refl, (λ h. (p, own), λ h. refl))
      | missing absent s ↦
          let (done, inserts, ins) = insert_node-IsInserted head p w t m in
          let undo = ins.undo clear (ins.counts ∙ ap not absent) in
          let verdict = match_done head p done a undo ins.entry in
          let at_done : overlaps looked.overlap
              ≡ ((node_overlap done.loc).less_specifics || (node_overlap done.loc).more_specifics) =
            unfold overlap_of overlaps in
            ap overlap_of (sym e ∙ missing_look head p done s inserts) in
          let seen : overlaps looked.overlap ≡ match_inserted done.loc = at_done ∙ sym verdict in
          rw (prefix_match, s, inserts)
            (
              match_inserted done.loc,
              ap (λ n. some (match_inserted done.loc, n)) undo,
              rw seen at spec,
            )
    ]
