-- ===== src/Elem.antt =====
-- lib/bgpstream_record.c: bgpstream_elem_prefix_match, the prefix filters of an element. The nodes of a
-- result set have prefixes: a glue node, whose prefix is NULL, would be a read through it.
pub mod Allowed
pub mod Listed
pub mod Matching
pub mod Matched
pub mod Filters
pub mod Adding
pub mod Expressions
pub mod Calls
pub mod Masks
pub mod Effects
pub mod Steps
pub mod Accepted
mod Examples
mod FilterExamples
use bgpstream.Base.{
  ℕ, zero, suc, ◌+◌, Bool, true, false, ◌||◌, Option, none, some, ◌==◌, if◌then◌else◌, ◌>>=◌,
}
use bgpstream.Addr.{Pfx}
use bgpstream.Patricia.{Loc, search_exact}
use bgpstream.Patricia.Search.{prefix_of}
use bgpstream.Patricia.Tree.{Tree, get_head, tree_insert, tree_remove_node}
use bgpstream.Patricia.Results
use bgpstream.Patricia.Results.{ResultSet, next, get_less_specifics, get_more_specifics}

-- BGPSTREAM_PREFIX_MATCH_ANY, _MORE and _LESS.
abbrev pub match_any : ℕ
match_any = 0

abbrev pub match_more : ℕ
match_more = 2

abbrev pub match_less : ℕ
match_less = 3

unfoldable pub allows : ℕ → Option Pfx → Bool
allows kind none = false
allows kind (some pfx) = pfx.allowed_matches == match_any || pfx.allowed_matches == kind

-- A loop over the nodes that are left in a result set: whether one allows the match, and the set.
unfoldable pub scan_results : ℕ → ℕ → ResultSet → Bool × ResultSet
scan_results zero kind set = (false, set)
scan_results (suc turns) kind set =
    let (it, set') = next set in
    let rest = scan_results turns kind set' in
    elim it [
      | none ↦ (false, set')
      | some loc ↦ if allows kind (prefix_of loc.here) then (true, set') else rest
    ]

unfoldable pub scan_all : ℕ → ResultSet → Bool × ResultSet
scan_all kind set = scan_results (suc (Results.count set)) kind set

-- The match of the node that insert has made.
unfoldable pub match_inserted : Loc → Bool
match_inserted n =
    let less = get_less_specifics n Results.create in
    let (matched, left) = scan_all match_more less in
    if matched then true else (scan_all match_less (get_more_specifics n left)).0

-- The result, and the tree, in which the prefix has been inserted and removed. `none` is the assertion
-- on its version.
unfoldable pub elem_prefix_match : Tree → Pfx → Option (Bool × Tree)
elem_prefix_match prefixes search = do
  head ← get_head prefixes search.address
  elim (search_exact head search) [
    | some loc ↦ some (true, prefixes)
    | none ↦ elim (tree_insert prefixes search) [
      | none ↦ none
      | some (n, placed) ↦ some (match_inserted n, tree_remove_node placed search.address n)
    ]
  ]
