-- ===== src/Patricia/Examples.antt =====
-- Runs of the tree of prefixes: 10.0.0.0/8 with 10.1.0.0/16 and 10.128.0.0/9 below it.
use bgpstream.Base.{
  ℕ, if◌then◌else◌, ◌≡◌, refl, ◌&&◌, ◌||◌, not, true, false, none, some, List, [], ◌∷◌, arith,
}
use bgpstream.Addr.{ipv4, Pfx}
use bgpstream.Patricia.{
  bit_at, same_bit, same_bits, comp_with_mask, Node, null, node, Frame, Loc, zip_up, plug,
  insert_node, Inserted, search_exact,
}
use bgpstream.Patricia.Results.{
  ResultSet, get_less_specifics, get_more_specifics, get_mincovering_prefix,
}
use bgpstream.Patricia.Bits.{Bits, Agree, comp_with_mask_iff}
use bgpstream.Patricia.Valid.{bits, IsHead, IsTree, has}
use bgpstream.Patricia.Search.{Searched, search_exact-Searched}
use bgpstream.Patricia.Path.{with_bit-extends}
use bgpstream.Patricia.Entries.{IsCleared, IsClear, IsInserted}
use bgpstream.Patricia.Insert.{insert_node-IsInserted}
use bgpstream.Patricia.Covers.{covers, returns}
use bgpstream.Patricia.Specifics.{get_less_specifics-returns, get_more_specifics-returns}
use bgpstream.Patricia.Minimum.{Longest, get_mincovering_prefix-Longest}
use bgpstream.Patricia.Undone.{fills_glue}
use bgpstream.Patricia.OverlapInfo.{IsMask, get_pfx_overlap_info-IsMask}
use bgpstream.Patricia.Tree.{
  Tree, get_head, count_up, prefix_count, get_pfx_overlap_info, tree_insert, tree_remove, merge,
}
use bgpstream.Patricia.Whole.{
  same_version, known, equal, member, IsValid, tree_insert-member, tree_remove-member,
}
use bgpstream.Patricia.Merge.{IsOf, merge-member}

abbrev ten8 : Pfx
ten8 = record { address = ipv4 167772160; mask_len = 8; allowed_matches = 0 }

abbrev ten16 : Pfx
ten16 = record { address = ipv4 167837696; mask_len = 16; allowed_matches = 0 }

abbrev ten9 : Pfx
ten9 = record { address = ipv4 176160768; mask_len = 9; allowed_matches = 0 }

-- 10.2.0.0/16, which is not in the tree.
abbrev two16 : Pfx
two16 = record { address = ipv4 167903232; mask_len = 16; allowed_matches = 0 }

abbrev sample : Node
sample =
    node 8 (some ten8) none (node 16 (some ten16) none null null)
      (node 9 (some ten9) none null null)

below : (q : Pfx) → comp_with_mask q.address ten8.address 8 ≡ true → Agree (bits q) (bits ten8) 8
below q = (comp_with_mask_iff q.address ten8.address 8).0

sample-IsTree : (w : Bits) → IsTree w 0 sample
unfolding IsTree IsHead bit_at
sample-IsTree w = (
  omega arith,
  omega arith,
  (
    bits ten8,
    λ i p. absurd (omega arith),
    (refl, λ i p. refl),
    (
      omega arith,
      omega arith,
      (
        bits ten16,
        with_bit-extends (bits ten16) (bits ten8) 8 false
            (below ten16 (unfold comp_with_mask same_bits same_bit bit_at in refl)) refl,
        (refl, λ i p. refl),
        tt,
        tt,
      ),
    ),
    (
      omega arith,
      omega arith,
      (
        bits ten9,
        with_bit-extends (bits ten9) (bits ten8) 8 true
            (below ten9 (unfold comp_with_mask same_bits same_bit bit_at in refl)) refl,
        (refl, λ i p. refl),
        tt,
        tt,
      ),
    ),
  ),
)

sample-IsCleared : IsCleared sample
unfolding IsCleared IsClear
sample-IsCleared = (tt, (tt, tt, tt), (tt, tt, tt))

insert_node_example :
    (done : Inserted) × (insert_node sample two16 ≡ some done) × IsInserted two16 sample done
insert_node_example =
    insert_node-IsInserted sample two16 (λ i. false) (sample-IsTree (λ i. false)) (omega arith)

search_exact_example : Searched ten9 [] sample (search_exact sample ten9)
search_exact_example = search_exact-Searched sample ten9 (λ i. false) (sample-IsTree (λ i. false))

abbrev sample_tree : Tree
sample_tree = record { head4 = sample; head6 = null; ipv4_active_nodes = 3; ipv6_active_nodes = 0 }

overlap_example :
    (mask : ℕ) × (get_pfx_overlap_info sample_tree two16
      ≡ some (
        mask,
        if fills_glue sample two16 then count_up sample_tree two16.address else sample_tree,
      ))
    × IsMask two16 sample mask
overlap_example =
    get_pfx_overlap_info-IsMask sample_tree two16 sample (λ i. false) (unfold get_head in refl)
      (unfold prefix_count in omega arith) (sample-IsTree (λ i. false)) sample-IsCleared
      (omega arith)

abbrev to_nine : List Frame
to_nine =
    record {
      bit = 8;
      prefix = some ten8;
      user = none;
      right = true;
      other = node 16 (some ten16) none null null;
    }
    ∷ []

abbrev empty_set : ResultSet
empty_set = record { result_nodes = []; cursor = 0 }

less_specifics_example :
    returns ten8
      (get_less_specifics
        (record { path = to_nine; here = node 9 (some ten9) none null null })
        empty_set).result_nodes
    ≡ (has ten8 (zip_up to_nine (node 9 (some ten9) none null null)) && covers ten8 ten9)
less_specifics_example =
    get_less_specifics-returns to_nine 9 ten9 none null null (λ i. false)
      (unfold zip_up plug in sample-IsTree (λ i. false)) empty_set ten8

more_specifics_example :
    returns ten9 (get_more_specifics (record { path = []; here = sample }) empty_set).result_nodes
    ≡ (has ten9 (zip_up [] sample) && covers ten8 ten9)
more_specifics_example =
    get_more_specifics-returns [] 8 ten8 none (node 16 (some ten16) none null null)
      (node 9 (some ten9) none null null) (λ i. false) (unfold zip_up in sample-IsTree (λ i. false))
      empty_set ten9

sample_tree-IsValid : IsValid sample_tree
sample_tree-IsValid = record { four = sample-IsTree; six = λ w. unfold IsTree in tt }

tree_insert_example :
    (done : Loc × Tree) × (tree_insert sample_tree two16 ≡ some done)
    × IsValid done.1
    × ((q : Pfx) → member q done.1 ≡ (equal two16 q || member q sample_tree))
tree_insert_example =
    tree_insert-member sample_tree two16 sample_tree-IsValid (unfold known in refl) (omega arith)

tree_remove_example :
    (left : Tree) × (tree_remove sample_tree ten8 ≡ some left)
    × IsValid left
    × ((q : Pfx) → member q left ≡ (member q sample_tree && not (equal ten8 q)))
tree_remove_example = tree_remove-member sample_tree ten8 sample_tree-IsValid (unfold known in refl)

merge_example :
    (pt : Tree) × (merge sample_tree (some sample_tree) ≡ some pt)
    × IsValid pt
    × ((q : Pfx) → member q pt ≡ (member q sample_tree || member q sample_tree))
merge_example =
    merge-member sample_tree sample_tree sample_tree-IsValid sample_tree-IsValid
      (unfold IsOf same_version in (refl, (refl, tt, tt), (refl, tt, tt))) (unfold IsOf in tt)

mincovering_example :
    Longest
      (λ q. has q (zip_up to_nine (node 9 (some ten9) none null null)) && covers q ten9)
      (get_mincovering_prefix
        (record { path = to_nine; here = node 9 (some ten9) none null null })
        empty_set).result_nodes
mincovering_example =
    get_mincovering_prefix-Longest to_nine 9 ten9 none null null (λ i. false) empty_set
      (unfold zip_up plug in sample-IsTree (λ i. false))
