-- ===== src/Patricia/Undone.antt =====
-- A prefix that is inserted in the tree of both versions and removed again: the nodes and the counts.
use bgpstream.Base.{
  ℕ, ◌+◌, ◌-◌, ◌%◌, ◌^◌, ◌<◌, ◌≡◌, inl, inr, refl, sym, ap, ◌∙◌, Bool, true, false, ◌&&◌, not, List,
  Option, none, some, arith, if◌then◌else◌, Bool-cases,
}
use bgpstream.Addr.{Addr, unknown, ipv4, ipv6, Pfx}
use bgpstream.Patricia.{
  Node, null, node, Frame, Loc, is_null, is_glue, search_exact, insert_node, Inserted,
}
use bgpstream.Patricia.Removal.{remove_node}
use bgpstream.Patricia.Valid.{is_entry, has}
use bgpstream.Patricia.Search.{prefix_of}
use bgpstream.Patricia.Entries.{IsCleared, IsInserted}
use bgpstream.Patricia.Tree.{
  Tree, get_head, set_head, count_up, count_down, insert_done, tree_insert, tree_remove_node,
  prefix_count,
}

-- A node with two children.
unfoldable pub has_two : Node → Bool
has_two null = false
has_two (node bit prefix user l r) = not (is_null r) && not (is_null l)

-- The prefix is not in the tree, and a node made for it has two children: it stands where the tree has
-- a glue node. To remove it again makes it a glue node, and does not count.
unfoldable pub fills_glue : Node → Pfx → Bool
fills_glue head pfx = elim (search_exact head pfx) [
  | some loc ↦ false
  | none ↦ elim (insert_node head pfx) [ none ↦ false | some done ↦ has_two done.loc.here ]
]

remove_at :
    (pfx : Pfx) (path : List Frame) (n : Node)
    → is_entry pfx (prefix_of n) ≡ true
    → (remove_node (record { path = path; here = n })).counted ≡ not (has_two n)
unfolding remove_node has_two is_entry prefix_of is_glue
remove_at pfx path null e = absurd (cc e)
remove_at pfx path (node b none user l r) e = absurd (cc e)
remove_at pfx path (node b (some q) user l r) e = ground arith

pub remove_node-counted :
    (pfx : Pfx) (loc : Loc)
    → is_entry pfx (prefix_of loc.here) ≡ true
    → (remove_node loc).counted ≡ not (has_two loc.here)
remove_node-counted pfx loc e = remove_at pfx loc.path loc.here e

head_of : (o : Option Node) → Node
head_of none = null
head_of (some n) = n

back_again : (k : ℕ) → k < 2 ^ 64 → ((k + 1) % 2 ^ 64 + (2 ^ 64 - 1)) % 2 ^ 64 ≡ k
back_again k lt = omega arith

-- The nodes are those from before, and a filled glue node has counted once.
pub undone :
    (pt : Tree) (address : Addr) (head : Node) (done : Inserted)
    → get_head pt address ≡ some head
    → prefix_count pt address < 2 ^ 64
    → done.counted ≡ true
    → (remove_node done.loc).tree ≡ head
    → (remove_node done.loc).counted ≡ not (has_two done.loc.here)
    → tree_remove_node (insert_done pt address done).1 address done.loc
      ≡ (if has_two done.loc.here then count_up pt address else pt)
unfolding tree_remove_node insert_done get_head set_head count_up count_down prefix_count
undone pt unknown head done g small c e n = absurd (cc g)
undone pt (ipv4 a) head done g small c e n =
    let same : (remove_node done.loc).tree ≡ pt.head4 =
      e ∙ (unfold head_of in ap head_of (sym g)) in
    elim (Bool-cases (has_two done.loc.here)) [
      | inl glue ↦ rw (c, n, glue, same) refl
      | inr gone ↦
          rw (c, n, gone, same)
            (ap (λ k. record pt { ipv4_active_nodes = k }) (back_again pt.ipv4_active_nodes small))
    ]
undone pt (ipv6 ms ls) head done g small c e n =
    let same : (remove_node done.loc).tree ≡ pt.head6 =
      e ∙ (unfold head_of in ap head_of (sym g)) in
    elim (Bool-cases (has_two done.loc.here)) [
      | inl glue ↦ rw (c, n, glue, same) refl
      | inr gone ↦
          rw (c, n, gone, same)
            (ap (λ k. record pt { ipv6_active_nodes = k }) (back_again pt.ipv6_active_nodes small))
    ]

pub fills_glue-found :
    (head : Node) (pfx : Pfx) (loc : Loc)
    → search_exact head pfx ≡ some loc
    → fills_glue head pfx ≡ false
unfolding fills_glue
fills_glue-found head pfx loc s = rw (fills_glue, s) refl

-- A prefix that is not in the tree goes in and out.
pub in_and_out :
    (pt : Tree) (pfx : Pfx) (head : Node) (done : Inserted)
    → get_head pt pfx.address ≡ some head
    → prefix_count pt pfx.address < 2 ^ 64
    → IsCleared head
    → has pfx head ≡ false
    → search_exact head pfx ≡ none
    → insert_node head pfx ≡ some done
    → IsInserted pfx head done
    → (placed : Tree) × (tree_insert pt pfx ≡ some (done.loc, placed))
      × (tree_remove_node placed pfx.address done.loc
          ≡ (if fills_glue head pfx then count_up pt pfx.address else pt))
unfolding tree_insert fills_glue
in_and_out pt pfx head done g small clear absent s inserts i =
    let counted : done.counted ≡ true = i.counts ∙ ap not absent in
    let loc : (insert_done pt pfx.address done).0 ≡ done.loc = unfold insert_done in refl in
    (
      (insert_done pt pfx.address done).1,
      rw (tree_insert, g, inserts) (unfold insert_done in refl),
      rw (fills_glue, s, inserts)
          (undone pt pfx.address head done g small counted (i.undo clear counted)
            (remove_node-counted pfx done.loc i.entry)),
    )
