-- ===== src/Elem/Examples.antt =====
-- A prefix filter for 10.0.0.0/8.
use bgpstream.Base.{◌≡◌, ◌↔◌, refl, Bool, true, ◌&&◌, ◌||◌, none, some, arith, if◌then◌else◌}
use bgpstream.Addr.{ipv4, Pfx}
use bgpstream.Patricia.{Node, null, node}
use bgpstream.Patricia.Bits.{Bits}
use bgpstream.Patricia.Valid.{bits, IsTree, IsHead, same_pfx, has}
use bgpstream.Patricia.Entries.{IsCleared, IsClear}
use bgpstream.Patricia.Covers.{covers}
use bgpstream.Patricia.Tree.{Tree, get_head, count_up, prefix_count}
use bgpstream.Patricia.Undone.{fills_glue}
use bgpstream.Elem.{elem_prefix_match}
use bgpstream.Elem.Allowed.{IsOpen, IsAny}
use bgpstream.Elem.Matched.{elem_prefix_match-covers}

abbrev ten8 : Pfx
ten8 = record { address = ipv4 167772160; mask_len = 8; allowed_matches = 0 }

abbrev ten16 : Pfx
ten16 = record { address = ipv4 167837696; mask_len = 16; allowed_matches = 0 }

abbrev filters : Node
filters = node 8 (some ten8) none null null

filters-IsTree : (w : Bits) → IsTree w 0 filters
unfolding IsTree IsHead
filters-IsTree w = (
  omega arith,
  omega arith,
  (bits ten8, λ i p. absurd (omega arith), (refl, λ i p. refl), tt, tt),
)

abbrev filter_tree : Tree
filter_tree = record { head4 = filters; head6 = null; ipv4_active_nodes = 1; ipv6_active_nodes = 0 }

elem_prefix_match-covers_example :
    (matched : Bool) × (elem_prefix_match filter_tree ten16
      ≡ some (
        matched,
        if fills_glue filters ten16 then count_up filter_tree ten16.address else filter_tree,
      ))
    × ((matched ≡ true) ↔ (
        (q : Pfx) × ((has q filters && (same_pfx ten16 q || (covers q ten16 || covers ten16 q)))
          ≡ true)))
elem_prefix_match-covers_example =
    elem_prefix_match-covers filter_tree ten16 filters (λ i. true) (unfold get_head in refl)
      (unfold prefix_count in omega arith) (filters-IsTree (λ i. true))
      (unfold IsCleared IsClear in (tt, tt, tt)) (unfold IsAny IsOpen in (refl, tt, tt))
      (omega arith)
