-- ===== src/Elem/Matched.antt =====
-- bgpstream_elem_prefix_match of lib/bgpstream_record.c on the tree of both versions.
use bgpstream.Base.{
  ◌^◌, ◌<◌, ◌≤◌, ◌≡◌, ◌↔◌, refl, sym, ap, ◌∙◌, Bool, true, ◌&&◌, ◌||◌, Option, none, some, ◌>>=◌,
  if◌then◌else◌,
}
use bgpstream.Addr.{Pfx}
use bgpstream.Patricia.{Node, Loc, maxbits, search_exact, insert_node, Inserted}
use bgpstream.Patricia.Bits.{Bits}
use bgpstream.Patricia.Valid.{IsTree, same_pfx, has}
use bgpstream.Patricia.Search.{missing, found, search_exact-Searched}
use bgpstream.Patricia.Entries.{IsCleared}
use bgpstream.Patricia.Insert.{insert_node-IsInserted}
use bgpstream.Patricia.Covers.{covers}
use bgpstream.Patricia.Tree.{Tree, get_head, count_up, prefix_count}
use bgpstream.Patricia.Undone.{fills_glue, fills_glue-found, in_and_out}
use bgpstream.Elem.{match_inserted, elem_prefix_match}
use bgpstream.Elem.Allowed.{IsAny}
use bgpstream.Elem.Matching.{prefix_match, prefix_match-covers}

result_of : Option (Bool × Node) → Option Bool
result_of none = none
result_of (some (matched, n)) = some matched

-- The two of them agree on the match.
found_match :
    (head : Node) (p : Pfx) (loc : Loc)
    → search_exact head p ≡ some loc
    → result_of (prefix_match head p) ≡ some true
unfolding result_of prefix_match
found_match head p loc s = rw (prefix_match, s) refl

missing_match :
    (head : Node) (p : Pfx) (done : Inserted)
    → search_exact head p ≡ none
    → insert_node head p ≡ some done
    → result_of (prefix_match head p) ≡ some (match_inserted done.loc)
unfolding result_of prefix_match
missing_match head p done s i = rw (prefix_match, s, i) refl

-- For a prefix of a version that is not UNKNOWN, on a well-formed tree of that version whose glue nodes
-- have no user data, whose prefixes all allow any match and whose count of active nodes is below
-- 2 ^ 64: elem_prefix_match leaves the nodes of both trees as they were, and the counts too, but for one
-- case: where the prefix is not in the tree and the node that is made for it has two children, the count
-- of its version is one higher afterwards, on 64 bits. It matches exactly if the tree has the prefix,
-- one that covers it, or one that it covers.
pub elem_prefix_match-covers :
    (pt : Tree) (p : Pfx) (head : Node) (w : Bits)
    → get_head pt p.address ≡ some head
    → prefix_count pt p.address < 2 ^ 64
    → IsTree w 0 head
    → IsCleared head
    → IsAny head
    → p.mask_len ≤ maxbits
    → (matched : Bool) × (elem_prefix_match pt p
        ≡ some (matched, if fills_glue head p then count_up pt p.address else pt))
      × ((matched ≡ true)
          ↔ ((q : Pfx) × ((has q head && (same_pfx p q || (covers q p || covers p q))) ≡ true)))
unfolding elem_prefix_match
elem_prefix_match-covers pt p head w g small t clear a m =
    let (matched, e, spec) = prefix_match-covers head p w t clear a m in
    let result : result_of (prefix_match head p) ≡ some matched =
      unfold result_of in ap result_of e in
    elim (search_exact-Searched head p w t) [
      | found there loc s tree entry ↦
          let same : some true ≡ some matched = sym (found_match head p loc s) ∙ result in
          let seen : true ≡ matched = cc same in
          (
            matched,
            rw (elem_prefix_match, g, ◌>>=◌, s, fills_glue-found head p loc s, sym seen) refl,
            spec,
          )
      | missing absent s ↦
          let (done, inserts, ins) = insert_node-IsInserted head p w t m in
          let (placed, into, out) = in_and_out pt p head done g small clear absent s inserts ins in
          let same : some (match_inserted done.loc) ≡ some matched =
            sym (missing_match head p done s inserts) ∙ result in
          let seen : match_inserted done.loc ≡ matched = cc same in
          (matched, rw (elem_prefix_match, g, ◌>>=◌, s, into, out, seen) refl, spec)
    ]
