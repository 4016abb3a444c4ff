-- ===== src/Patricia/Removal.antt =====
-- bgpstream_patricia_tree_remove and bgpstream_patricia_tree_remove_node. The node is freed, so they
-- return the tree, and whether it has an active node less by its count.
use bgpstream.Base.{Bool, true, false, ◌&&◌, not, none, some, List, [], ◌∷◌, if◌then◌else◌}
use bgpstream.Addr.{Pfx}
use bgpstream.Patricia.{
  Node, null, node, Frame, Loc, plug, zip_up, root, is_null, is_glue, search_exact,
}

pub record Removed : Type 0 where
  pub tree : Node
  pub counted : Bool

-- A node without children: a glue parent goes as well, and its other child takes its place.
unfoldable pub remove_leaf : List Frame → Node
remove_leaf [] = null
remove_leaf (f ∷ path) = if is_glue f.prefix then zip_up path f.other else zip_up path (plug f null)

unfoldable pub remove_node : Loc → Removed
remove_node loc = elim loc.here [
  | null ↦ record { tree = root loc; counted = false }
  | node bit prefix user l r ↦
      if is_glue prefix
      then record { tree = root loc; counted = false }
      else if not (is_null r) && not (is_null l)
      then record { tree = zip_up loc.path (node bit none none l r); counted = false }
      else if is_null r && is_null l
      then record { tree = remove_leaf loc.path; counted = true }
      else record { tree = zip_up loc.path (if is_null r then l else r); counted = true }
]

-- The node that search_exact finds, if it finds one.
unfoldable pub remove : Node → Pfx → Removed
remove head pfx = elim (search_exact head pfx) [
  | none ↦ record { tree = head; counted = false }
  | some loc ↦ remove_node loc
]
