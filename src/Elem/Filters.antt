-- ===== src/Elem/Filters.antt =====
-- lib/bgpstream_filter.h and lib/bgpstream_record.c: the filters of elements that a filter manager
-- holds, and bgpstream_elem_check_filters. The sets over khash are lists without repetition, texts are
-- lists of bytes. POSIX regular expressions are a parameter.
use Prim.Native.Nat.{bit_and}
use bgpstream.Base.{
  ℕ, zero, suc, ◌+◌, Bool, true, false, ◌&&◌, ◌||◌, not, Option, none, some, List, [], ◌∷◌, ◌==◌,
  if◌then◌else◌,
}
use bgpstream.Addr.{Addr, unknown, ipv4, ipv6, Pfx}
use bgpstream.Patricia.Tree.{Tree}
use bgpstream.AsPath.{AsPath}
use bgpstream.AsPath.Memory.{Mem}
use bgpstream.AsPath.Print.{get_filterable}
use bgpstream.Community.{Community, CommunitySet, set_match}
use bgpstream.Elem.{elem_prefix_match}

-- bgpstream_elem_type_t.
pub data ElemType : Type 0 where
  unknown_type rib announcement withdrawal peerstate : ElemType

-- The fields of bgpstream_elem_t that the filters read.
pub record Elem : Type 0 where
  pub elem_type : ElemType
  pub peer_asnumber : ℕ
  pub prefix : Pfx
  pub aspath : AsPath
  pub communities : CommunitySet

-- The fields of bgpstream_filter_mgr_t that bgpstream_filter_mgr_filter_add sets; `none` is NULL.
pub record ElemFilters : Type 0 where
  pub projects : Option (List (List ℕ))
  pub collectors : Option (List (List ℕ))
  pub bgp_types : Option (List (List ℕ))
  pub aspath_exprs : Option (List (List ℕ))
  pub peer_asns : Option (List ℕ)
  pub prefixes : Option Tree
  pub communities : Option (List (Community × ℕ))
  pub ipversion : ℕ
  pub elemtype_mask : ℕ

-- BGPSTREAM_FILTER_ELEM_TYPE_*.
abbrev pub type_rib : ℕ
type_rib = 1

abbrev pub type_announcement : ℕ
type_announcement = 2

abbrev pub type_withdrawal : ℕ
type_withdrawal = 4

abbrev pub type_peerstate : ℕ
type_peerstate = 8

-- BGPSTREAM_ADDR_VERSION_*, which are AF_INET and AF_INET6.
abbrev pub version_ipv4 : ℕ
version_ipv4 = 2

abbrev pub version_ipv6 : ℕ
version_ipv6 = 10

unfoldable pub version_of : Addr → ℕ
version_of unknown = 0
version_of (ipv4 a) = version_ipv4
version_of (ipv6 ms ls) = version_ipv6

-- Whether regcomp returns a negative number, and what regexec returns for an expression and a text.
pub record Regex : Type 0 where
  pub regcomp_negative : List ℕ → Bool
  pub regexec : List ℕ → List ℕ → ℕ

-- REG_NOMATCH.
abbrev pub reg_nomatch : ℕ
reg_nomatch = 1

-- The text at an address, up to a NUL or a length.
unfoldable pub string_at : ℕ → Mem → ℕ → List ℕ
string_at zero mem at = []
string_at (suc len) mem at =
    let rest = string_at len mem (at + 1) in if mem at == 0 then [] else mem at ∷ rest

unfoldable pub has_bit : ℕ → ℕ → Bool
has_bit mask bit = not (bit_and mask bit == 0)

unfoldable pub is_withdrawal_or_state : ElemType → Bool
is_withdrawal_or_state withdrawal = true
is_withdrawal_or_state peerstate = true
is_withdrawal_or_state _ = false

unfoldable pub is_peerstate : ElemType → Bool
is_peerstate peerstate = true
is_peerstate _ = false

-- The bit of a type; an unknown type has none and is not looked for.
unfoldable pub type_passes : ℕ → ElemType → Bool
type_passes mask unknown_type = true
type_passes mask rib = has_bit mask type_rib
type_passes mask announcement = has_bit mask type_announcement
type_passes mask withdrawal = has_bit mask type_withdrawal
type_passes mask peerstate = has_bit mask type_peerstate

unfoldable pub id_exists : List ℕ → ℕ → Bool
id_exists [] id = false
id_exists (x ∷ ids) id = x == id || id_exists ids id

-- The counters of the loop over the AS path expressions.
pub record Counts : Type 0 where
  pub positives : ℕ
  pub negatives : ℕ
  pub totalpositives : ℕ

unfoldable pub count_match : Bool → Counts → Counts
count_match true n = record n { negatives = n.negatives + 1 }
count_match false n = record n { positives = n.positives + 1 }

-- An expression without its `!`, and whether it had one.
unfoldable pub split_negation : List ℕ → Bool × List ℕ
split_negation [] = (false, [])
split_negation (c ∷ rest) = if c == b'!' then (true, rest) else (false, c ∷ rest)

unfoldable pub aspath_loop : Regex → List ℕ → List (List ℕ) → Counts → Counts
aspath_loop rx text [] n = n
aspath_loop rx text ([] ∷ exprs) n = aspath_loop rx text exprs n
aspath_loop rx text ((c ∷ cs) ∷ exprs) n =
    let (negate, expr) = split_negation (c ∷ cs) in
    let n1 : Counts = if negate then n else record n { totalpositives = n.totalpositives + 1 } in
    let result : ℕ = rx.regexec expr text in
    let n2 : Counts = if result == 0 then count_match negate n1 else n1 in
    let rest = aspath_loop rx text exprs n2 in
    if rx.regcomp_negative expr
    then n1
    else if not (result == reg_nomatch) && not (result == 0)
    then n2
    else rest

-- The buffer of 65536 bytes, of which the call uses 65535; what is in it before does not matter.
unfoldable pub check_aspath : Regex → List (List ℕ) → Elem → Bool
check_aspath rx exprs elem =
    if is_withdrawal_or_state elem.elem_type
    then false
    else let (mem, pathlen) = get_filterable (λ i. 0) 0 65535 elem.aspath in
      if pathlen == 0
      then false
      else let n : Counts =
          aspath_loop rx (string_at 65535 mem 0) exprs
            (record { positives = 0; negatives = 0; totalpositives = 0 }) in
        n.positives == n.totalpositives && n.negatives == 0

unfoldable pub communities_loop : CommunitySet → List (Community × ℕ) → Bool
communities_loop set [] = false
communities_loop set ((c, mask) ∷ rest) = set_match set c mask || communities_loop set rest

unfoldable pub check_communities : List (Community × ℕ) → Elem → Bool
check_communities filters elem =
    if is_withdrawal_or_state elem.elem_type
    then false
    else communities_loop elem.communities filters

-- The match in the tree. `none` is the assertion on the version of the prefix.
unfoldable pub check_prefixes : ElemFilters → Tree → Elem → Option (Bool × ElemFilters)
check_prefixes filters tree elem =
    if is_peerstate elem.elem_type
    then some (false, filters)
    else elim (elem_prefix_match tree elem.prefix) [
      | none ↦ none
      | some (matched, tree') ↦ some (matched, record filters { prefixes = some tree' })
    ]

-- The filters that are not on prefixes, after those on the type, the peer and the version.
unfoldable pub check_rest : Regex → ElemFilters → Elem → Bool
check_rest rx filters elem = elim filters.aspath_exprs [
  | some exprs ↦ check_aspath rx exprs elem
  | none ↦ elim filters.communities [ none ↦ true | some wanted ↦ check_communities wanted elem ]
]

unfoldable pub peer_passes : Option (List ℕ) → ℕ → Bool
peer_passes none asn = true
peer_passes (some asns) asn = id_exists asns asn

unfoldable pub version_passes : ℕ → Elem → Bool
version_passes version elem =
    if version == 0
    then true
    else not (is_peerstate elem.elem_type) && version_of elem.prefix.address == version

unfoldable pub check_filters : Regex → ElemFilters → Elem → Option (Bool × ElemFilters)
check_filters rx filters elem =
    if not (filters.elemtype_mask == 0) && not (type_passes filters.elemtype_mask elem.elem_type)
    then some (false, filters)
    else if not (peer_passes filters.peer_asns elem.peer_asnumber)
    then some (false, filters)
    else if not (version_passes filters.ipversion elem)
    then some (false, filters)
    else elim filters.prefixes [
      | some tree ↦ check_prefixes filters tree elem
      | none ↦ some (check_rest rx filters elem, filters)
    ]

-- bgpstream_record_get_next_elem on the elements that the generator still has: the first that passes,
-- the elements behind it, and the filters.
unfoldable pub get_next_elem :
    Regex → ElemFilters → List Elem → Option (Option Elem × List Elem × ElemFilters)
get_next_elem rx filters [] = some (none, [], filters)
get_next_elem rx filters (elem ∷ rest) = elim (check_filters rx filters elem) [
  | none ↦ none
  | some (pass, filters') ↦
      let later = get_next_elem rx filters' rest in
      if pass then some (some elem, rest, filters') else later
]
