-- ===== src/Patricia/Tree.antt =====
-- bgpstream_patricia_tree_t: a tree for each version of IP, with the counts of active nodes, which are
-- uint64_t. A version UNKNOWN is an assertion that fails. `fun` of the walk is a parameter.
use Prim.Native.Nat.{bit_or, bit_and}
use bgpstream.Base.{
  Bool, true, false, ℕ, ◌+◌, ◌-◌, ◌%◌, ◌^◌, Option, none, some, if◌then◌else◌, ◌==◌, ◌>>=◌,
}
use bgpstream.Addr.{Addr, unknown, ipv4, ipv6, Pfx}
use bgpstream.Patricia.{Node, null, node, Loc, root, search_exact, insert_node, Inserted}
use bgpstream.Patricia.Removal.{remove, remove_node}
use bgpstream.Patricia.Results.{count_subnets, get_node_overlap_info, overlap_exact_match}

pub record Tree : Type 0 where
  pub head4 : Node
  pub head6 : Node
  pub ipv4_active_nodes : ℕ
  pub ipv6_active_nodes : ℕ

abbrev pub create : Tree
create = record { head4 = null; head6 = null; ipv4_active_nodes = 0; ipv6_active_nodes = 0 }

unfoldable pub tree_clear : Tree → Tree
tree_clear pt = record pt {
  head4 = null;
  head6 = null;
  ipv4_active_nodes = 0;
  ipv6_active_nodes = 0;
}

unfoldable pub same_user : Option ℕ → Option ℕ → Bool
same_user none none = true
same_user (some a) (some b) = a == b
same_user none (some b) = false
same_user (some a) none = false

-- The new location of the node, and the 1 of a change.
unfoldable pub set_user : Loc → Option ℕ → Loc × Bool
set_user loc user = elim loc.here [
  | null ↦ (loc, false)
  | node bit prefix old l r ↦
      if same_user old user
      then (loc, false)
      else (record loc { here = node bit prefix user l r }, true)
]

unfoldable pub get_head : Tree → Addr → Option Node
get_head pt unknown = none
get_head pt (ipv4 a) = some pt.head4
get_head pt (ipv6 ms ls) = some pt.head6

unfoldable pub set_head : Tree → Addr → Node → Tree
set_head pt unknown n = pt
set_head pt (ipv4 a) n = record pt { head4 = n }
set_head pt (ipv6 ms ls) n = record pt { head6 = n }

unfoldable pub count_up : Tree → Addr → Tree
count_up pt unknown = pt
count_up pt (ipv4 a) = record pt { ipv4_active_nodes = (pt.ipv4_active_nodes + 1) % 2 ^ 64 }
count_up pt (ipv6 ms ls) = record pt { ipv6_active_nodes = (pt.ipv6_active_nodes + 1) % 2 ^ 64 }

unfoldable pub count_down : Tree → Addr → Tree
count_down pt unknown = pt
count_down pt (ipv4 a) = record pt {
  ipv4_active_nodes = (pt.ipv4_active_nodes + (2 ^ 64 - 1)) % 2 ^ 64;
}
count_down pt (ipv6 ms ls) = record pt {
  ipv6_active_nodes = (pt.ipv6_active_nodes + (2 ^ 64 - 1)) % 2 ^ 64;
}

unfoldable pub insert_done : Tree → Addr → Inserted → Loc × Tree
insert_done pt address done =
    let placed = set_head pt address (root done.loc) in
    (done.loc, if done.counted then count_up placed address else placed)

unfoldable pub tree_insert : Tree → Pfx → Option (Loc × Tree)
tree_insert pt pfx = do
  head ← get_head pt pfx.address
  done ← insert_node head pfx
  some (insert_done pt pfx.address done)

unfoldable pub tree_remove : Tree → Pfx → Option Tree
tree_remove pt pfx = do
  head ← get_head pt pfx.address
  let left = remove head pfx
  let placed = set_head pt pfx.address left.tree
  some (if left.counted then count_down placed pfx.address else placed)

-- remove_node, of a node of the tree of that version.
unfoldable pub tree_remove_node : Tree → Addr → Loc → Tree
tree_remove_node pt address loc =
    let left = remove_node loc in
    let placed = set_head pt address left.tree in
    if left.counted then count_down placed address else placed

-- The mask of 8 bits, and the tree, in which the prefix has been inserted and removed.
unfoldable pub get_pfx_overlap_info : Tree → Pfx → Option (ℕ × Tree)
get_pfx_overlap_info pt pfx = do
  head ← get_head pt pfx.address
  elim (search_exact head pfx) [
    | some loc ↦ some (bit_or (get_node_overlap_info loc) overlap_exact_match, pt)
    | none ↦ elim (tree_insert pt pfx) [
      | none ↦ none
      | some (n, placed) ↦ some (
        bit_and (get_node_overlap_info n) (0b1111_1111 - overlap_exact_match),
        tree_remove_node placed pfx.address n,
      )
    ]
  ]

unfoldable pub prefix_count : Tree → Addr → ℕ
prefix_count pt unknown = 0
prefix_count pt (ipv4 a) = pt.ipv4_active_nodes
prefix_count pt (ipv6 ms ls) = pt.ipv6_active_nodes

unfoldable pub count_24subnets : Tree → ℕ
count_24subnets pt = count_subnets pt.head4 24

unfoldable pub count_64subnets : Tree → ℕ
count_64subnets pt = count_subnets pt.head6 64

unfoldable pub merge_tree : Tree → Node → Option Tree
merge_tree dst null = some dst
merge_tree dst (node bit none user l r) = do on_left ← merge_tree dst l; merge_tree on_left r
merge_tree dst (node bit (some pfx) user l r) = do
  own ← tree_insert dst pfx
  on_left ← merge_tree own.1 l
  merge_tree on_left r

-- merge; a `src` that is NULL is none.
unfoldable pub merge : Tree → Option Tree → Option Tree
merge dst none = some dst
merge dst (some src) = do four ← merge_tree dst src.head4; merge_tree four src.head6

-- The walk, with the state that `data` points to.
unfoldable pub walk_tree {ℓ} : {S : Type ℓ} → (Node → S → S) → Node → S → S
walk_tree fun null state = state
walk_tree fun (node bit none user l r) state = walk_tree fun r (walk_tree fun l state)
walk_tree fun (node bit (some pfx) user l r) state =
    walk_tree fun r (fun (node bit (some pfx) user l r) (walk_tree fun l state))

unfoldable pub walk {ℓ} : {S : Type ℓ} → (Node → S → S) → Tree → S → S
walk fun pt state = walk_tree fun pt.head6 (walk_tree fun pt.head4 state)
