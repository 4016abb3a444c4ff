-- ===== src/Patricia/Looks.antt =====
-- A look at the overlap of a prefix in the tree of one version of IP, by its parts: what
-- get_node_overlap_info and get_pfx_overlap_info put into one mask, and the steps on the tree.
use bgpstream.Base.{Bool, true, false, Option, none, some}
use bgpstream.Addr.{Pfx}
use bgpstream.Patricia.{Node, Loc, search_exact, insert_node}
use bgpstream.Patricia.Removal.{remove_node}
use bgpstream.Patricia.Results.{find_less_specific, more_of}

-- Whether the bits of the mask are set.
pub record Overlap : Type 0 where
  pub less_specifics : Bool
  pub exact_match : Bool
  pub more_specifics : Bool

unfoldable pub node_overlap : Loc → Overlap
node_overlap loc = record {
  less_specifics = find_less_specific loc.path;
  exact_match = true;
  more_specifics = more_of loc.here;
}

-- What a look at the overlap of a prefix comes to: the mask, the tree, and whether the inserted node
-- counted, and its removal.
pub record Looked : Type 0 where
  pub overlap : Overlap
  pub tree : Node
  pub inserted : Bool
  pub removed : Bool

unfoldable pub pfx_overlap : Node → Pfx → Option Looked
pfx_overlap head pfx = elim (search_exact head pfx) [
  | some loc ↦
      some (record { overlap = node_overlap loc; tree = head; inserted = false; removed = false })
  | none ↦ elim (insert_node head pfx) [
    | none ↦ none
    | some done ↦
        let left = remove_node done.loc in
        some (record {
          overlap = record (node_overlap done.loc) { exact_match = false };
          tree = left.tree;
          inserted = done.counted;
          removed = left.counted;
        })
  ]
]
