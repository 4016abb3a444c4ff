-- ===== src/Elem/Adding.antt =====
-- lib/bgpstream_filter.c: bgpstream_filter_mgr_filter_add. Memory is never short.
use Prim.Native.Nat.{bit_or, bit_and}
use bgpstream.Base.CString.{strtoul}
use bgpstream.Base.{
  ℕ, ◌%◌, ◌^◌, Bool, true, false, ◌&&◌, ◌||◌, Option, none, some, List, [], ◌∷◌, ◌==◌,
  if◌then◌else◌,
}
use bgpstream.Addr.Parse.{InetPton, parsed, refused, undefined, str2pfx}
use bgpstream.Patricia.Tree
use bgpstream.Patricia.Tree.{Tree, tree_insert}
use bgpstream.Community.{Community, community_equal}
use bgpstream.Community.Parse.{str2community}
use bgpstream.FilterParser.{
  FilterType, project, collector, record_type, elem_peer_asn, elem_prefix, elem_community,
  elem_prefix_exact, elem_prefix_more, elem_prefix_less, elem_prefix_any, elem_aspath,
  elem_extended_community, elem_ip_version, elem_type,
}
use bgpstream.Elem.{match_any, match_more, match_less}
use bgpstream.Elem.Filters.{
  ElemFilters, type_rib, type_announcement, type_withdrawal, type_peerstate, version_ipv4,
  version_ipv6, id_exists,
}

-- The texts that the code compares with.
abbrev pub ribs : List ℕ
ribs = b'r' ∷ b'i' ∷ b'b' ∷ b's' ∷ []

abbrev pub announcements : List ℕ
announcements =
    b'a' ∷ b'n' ∷ b'n' ∷ b'o' ∷ b'u' ∷ b'n' ∷ b'c' ∷ b'e' ∷ b'm' ∷ b'e' ∷ b'n' ∷ b't' ∷ b's' ∷ []

abbrev pub withdrawals : List ℕ
withdrawals = b'w' ∷ b'i' ∷ b't' ∷ b'h' ∷ b'd' ∷ b'r' ∷ b'a' ∷ b'w' ∷ b'a' ∷ b'l' ∷ b's' ∷ []

abbrev pub peerstates : List ℕ
peerstates = b'p' ∷ b'e' ∷ b'e' ∷ b'r' ∷ b's' ∷ b't' ∷ b'a' ∷ b't' ∷ b'e' ∷ b's' ∷ []

abbrev pub four : List ℕ
four = b'4' ∷ []

abbrev pub six : List ℕ
six = b'6' ∷ []

-- strcmp is 0.
unfoldable pub same_text : List ℕ → List ℕ → Bool
same_text [] [] = true
same_text [] (y ∷ ys) = false
same_text (x ∷ xs) [] = false
same_text (x ∷ xs) (y ∷ ys) = x == y && same_text xs ys

-- bgpstream_str_set_insert and bgpstream_id_set_insert on sets that may still be NULL.
unfoldable pub str_exists : List (List ℕ) → List ℕ → Bool
str_exists [] text = false
str_exists (x ∷ set) text = same_text x text || str_exists set text

unfoldable pub str_insert : Option (List (List ℕ)) → List ℕ → Option (List (List ℕ))
str_insert none text = some (text ∷ [])
str_insert (some set) text = some (if str_exists set text then set else text ∷ set)

unfoldable pub id_insert : Option (List ℕ) → ℕ → Option (List ℕ)
id_insert none id = some (id ∷ [])
id_insert (some ids) id = some (if id_exists ids id then ids else id ∷ ids)

-- The bit of the name of a type; an unknown name has none.
unfoldable pub type_bit : List ℕ → Option ℕ
type_bit text =
    if same_text text ribs
    then some type_rib
    else if same_text text announcements
    then some type_announcement
    else if same_text text withdrawals
    then some type_withdrawal
    else if same_text text peerstates
    then some type_peerstate
    else none

unfoldable pub version_named : List ℕ → Option ℕ
version_named text =
    if same_text text four
    then some version_ipv4
    else if same_text text six
    then some version_ipv6
    else none

-- BGPSTREAM_PREFIX_MATCH_EXACT.
abbrev pub match_exact : ℕ
match_exact = 1

unfoldable pub match_type : FilterType → ℕ
match_type elem_prefix_more = match_more
match_type elem_prefix = match_more
match_type elem_prefix_less = match_less
match_type elem_prefix_exact = match_exact
match_type _ = match_any

-- The mask of a community that is there already is cut down to the common part.
unfoldable pub put_community : List (Community × ℕ) → Community → ℕ → List (Community × ℕ)
put_community [] comm mask = (comm, mask) ∷ []
put_community ((c, old) ∷ rest) comm mask =
    if community_equal c comm
    then (c, bit_and old mask) ∷ rest
    else (c, old) ∷ put_community rest comm mask

abbrev pub or_empty : Option (List (Community × ℕ)) → List (Community × ℕ)
or_empty none = []
or_empty (some set) = set

abbrev pub or_create : Option Tree → Tree
or_create none = Tree.create
or_create (some tree) = tree

-- `none` is a result that C does not define: a prefix that str2pfx has refused is inserted all the same,
-- whatever the memory holds.
unfoldable pub add_prefix : InetPton → ElemFilters → FilterType → List ℕ → Option ElemFilters
add_prefix env filters type text = elim (str2pfx env text) [
  | undefined ↦ none
  | refused ↦ none
  | parsed pfx ↦
      elim (tree_insert (or_create filters.prefixes)
        (record pfx { allowed_matches = match_type type })) [
          | none ↦ some (record filters { prefixes = some (or_create filters.prefixes) })
          | some (loc, tree) ↦ some (record filters { prefixes = some tree })
        ]
]

unfoldable pub add_community : ElemFilters → List ℕ → ElemFilters
add_community filters text =
    let old = or_empty filters.communities in
    elim (str2community text) [
      | none ↦ record filters { communities = some old }
      | some (comm, mask) ↦ record filters { communities = some (put_community old comm mask) }
    ]

unfoldable pub add_type : ElemFilters → List ℕ → ElemFilters
add_type filters text = elim (type_bit text) [
  | none ↦ filters
  | some bit ↦ record filters { elemtype_mask = bit_or filters.elemtype_mask bit }
]

unfoldable pub add_version : ElemFilters → List ℕ → ElemFilters
add_version filters text = elim (version_named text) [
  | none ↦ filters
  | some version ↦ record filters { ipversion = version }
]

unfoldable pub filter_add : InetPton → ElemFilters → FilterType → List ℕ → Option ElemFilters
filter_add env filters elem_peer_asn text =
    some (record filters { peer_asns = id_insert filters.peer_asns ((strtoul text).0 % 2 ^ 32) })
filter_add env filters elem_type text = some (add_type filters text)
filter_add env filters elem_aspath text =
    some (record filters { aspath_exprs = str_insert filters.aspath_exprs text })
filter_add env filters elem_prefix text = add_prefix env filters elem_prefix text
filter_add env filters elem_prefix_more text = add_prefix env filters elem_prefix_more text
filter_add env filters elem_prefix_less text = add_prefix env filters elem_prefix_less text
filter_add env filters elem_prefix_exact text = add_prefix env filters elem_prefix_exact text
filter_add env filters elem_prefix_any text = add_prefix env filters elem_prefix_any text
filter_add env filters elem_community text = some (add_community filters text)
filter_add env filters elem_ip_version text = some (add_version filters text)
filter_add env filters project text =
    some (record filters { projects = str_insert filters.projects text })
filter_add env filters collector text =
    some (record filters { collectors = str_insert filters.collectors text })
filter_add env filters record_type text =
    some (record filters { bgp_types = str_insert filters.bgp_types text })
filter_add env filters elem_extended_community text = some filters

-- bgpstream_filter_mgr_create.
abbrev pub no_filters : ElemFilters
no_filters = record {
  projects = none;
  collectors = none;
  bgp_types = none;
  aspath_exprs = none;
  peer_asns = none;
  prefixes = none;
  communities = none;
  ipversion = 0;
  elemtype_mask = 0;
}

-- Calls one after the other.
unfoldable pub filter_adds :
    InetPton → ElemFilters → List (FilterType × List ℕ) → Option ElemFilters
filter_adds env filters [] = some filters
filter_adds env filters ((type, text) ∷ calls) = elim (filter_add env filters type text) [
  | none ↦ none
  | some filters' ↦ filter_adds env filters' calls
]
