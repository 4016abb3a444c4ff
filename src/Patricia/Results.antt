-- ===== src/Patricia/Results.antt =====
-- lib/utils/bgpstream_utils_patricia.c: result sets, and the functions that look around a node. A
-- pointer to a node is a location. The array of a result set is its first n_recs elements.
use Prim.Native.Nat.{bit_or}
use bgpstream.Base.{
  ℕ, zero, suc, ◌+◌, ◌-◌, ◌%◌, ◌^◌, Bool, true, false, ◌&&◌, not, Option, none, some, List, [], ◌∷◌,
  ◌++◌, leb, ◌==◌, if◌then◌else◌, length, get_elem?,
}
use bgpstream.Patricia.{Node, null, node, Frame, Loc, plug, is_glue, maxbits}

pub record ResultSet : Type 0 where
  pub result_nodes : List Loc
  pub cursor : ℕ

abbrev pub create : ResultSet
create = record { result_nodes = []; cursor = 0 }

unfoldable pub count : ResultSet → ℕ
count set = length set.result_nodes

unfoldable pub add_node : ResultSet → Loc → ResultSet
add_node set loc = record set { result_nodes = set.result_nodes ++ (loc ∷ []) }

unfoldable pub clear : ResultSet → ResultSet
clear set = record set { result_nodes = [] }

unfoldable pub rewind : ResultSet → ResultSet
rewind set = record set { cursor = 0 }

unfoldable pub next : ResultSet → Option Loc × ResultSet
next set =
    if leb (length set.result_nodes) set.cursor
    then (none, set)
    else (get_elem? set.result_nodes set.cursor, record set { cursor = set.cursor + 1 })

unfoldable pub add_more_specifics : ResultSet → List Frame → Node → ℕ → ResultSet
add_more_specifics set path null depth = set
add_more_specifics set path (node bit prefix user l r) zero = set
add_more_specifics set path (node bit prefix user l r) (suc depth) =
    let d = if is_glue prefix then suc depth else depth in
    let own =
      if is_glue prefix
      then set
      else add_node set (record { path = path; here = node bit prefix user l r }) in
    let on_left =
      add_more_specifics own
        (record { bit = bit; prefix = prefix; user = user; right = false; other = r } ∷ path) l d in
    add_more_specifics on_left
      (record { bit = bit; prefix = prefix; user = user; right = true; other = l } ∷ path) r d

-- From the parent of a node on.
unfoldable pub add_less_specifics : ResultSet → List Frame → Node → ℕ → ResultSet
add_less_specifics set [] n depth = set
add_less_specifics set (f ∷ path) n zero = set
add_less_specifics set (f ∷ path) n (suc depth) =
    if is_glue f.prefix
    then add_less_specifics set path (plug f n) (suc depth)
    else add_less_specifics (add_node set (record { path = path; here = plug f n })) path (plug f n)
        depth

unfoldable pub get_more_specifics : Loc → ResultSet → ResultSet
get_more_specifics loc results = elim loc.here [
  | null ↦ clear results
  | node bit prefix user l r ↦
      let on_left =
        add_more_specifics (clear results)
          (record { bit = bit; prefix = prefix; user = user; right = false; other = r } ∷ loc.path)
          l (maxbits + 1) in
      add_more_specifics on_left
        (record { bit = bit; prefix = prefix; user = user; right = true; other = l } ∷ loc.path) r
        (maxbits + 1)
]

unfoldable pub get_mincovering_prefix : Loc → ResultSet → ResultSet
get_mincovering_prefix loc results = add_less_specifics (clear results) loc.path loc.here 1

unfoldable pub get_less_specifics : Loc → ResultSet → ResultSet
get_less_specifics loc results = add_less_specifics (clear results) loc.path loc.here (maxbits + 1)

unfoldable pub get_minimum_coverage : Node → ResultSet → ResultSet
get_minimum_coverage head results = add_more_specifics (clear results) [] head 1

unfoldable pub find_more_specific : Node → Bool
find_more_specific null = false
find_more_specific (node bit prefix user l r) =
    if is_glue prefix && (not (find_more_specific l) && not (find_more_specific r))
    then false
    else true

-- The loop over the ancestors of node_overlap.
unfoldable pub find_less_specific : List Frame → Bool
find_less_specific [] = false
find_less_specific (f ∷ path) = if is_glue f.prefix then find_less_specific path else true

-- BGPSTREAM_PATRICIA_LESS_SPECIFICS, _EXACT_MATCH and _MORE_SPECIFICS.
abbrev pub overlap_less_specifics : ℕ
overlap_less_specifics = 0b0100

abbrev pub overlap_exact_match : ℕ
overlap_exact_match = 0b0010

abbrev pub overlap_more_specifics : ℕ
overlap_more_specifics = 0b0001

unfoldable pub more_of : Node → Bool
more_of null = false
more_of (node bit prefix user l r) = if find_more_specific l then true else find_more_specific r

-- get_node_overlap_info.
unfoldable pub get_node_overlap_info : Loc → ℕ
get_node_overlap_info loc =
    let mask : ℕ =
      if find_less_specific loc.path
      then bit_or overlap_exact_match overlap_less_specifics
      else overlap_exact_match in
    if more_of loc.here then bit_or mask overlap_more_specifics else mask

unfoldable pub count_subnets : Node → ℕ → ℕ
count_subnets null subnet_size = 0
count_subnets (node bit none user l r) subnet_size =
    let below = (count_subnets l subnet_size + count_subnets r subnet_size) % 2 ^ 64 in
    if leb subnet_size bit then 1 else below
count_subnets (node bit (some pfx) user l r) subnet_size =
    if leb subnet_size pfx.mask_len
    then 1
    else if subnet_size - pfx.mask_len == 64
    then 2 ^ 64 - 1
    else 2 ^ (subnet_size - pfx.mask_len)
