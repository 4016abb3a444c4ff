-- ===== src/FilterParser/Language.antt =====
-- The filter language: clauses of a term and a value, and the words that they are written with.
use Prim.Native.Char.{code}
use Prim.Native.String.{String}
use bgpstream.Base.Text.{str_eq}
use bgpstream.Base.{◌≡◌, Bool, false, ◌||◌, Option, some, List, [], ◌∷◌, ◌++◌, ◌==◌, if◌then◌else◌}
use bgpstream.FilterParser.{
  FilterType, project, collector, record_type, elem_peer_asn, elem_prefix_exact, elem_prefix_more,
  elem_prefix_less, elem_prefix_any, elem_community, elem_aspath, elem_extended_community,
  elem_ip_version, elem_type, is_supported,
}

-- The terms that take a value at once.
pub data Term : Type 0 where
  by_project by_collector by_type by_peer by_community by_aspath by_extcommunity by_ipversion : Term
  by_elemtype : Term

-- What may stand between `prefix` and its value.
pub data Ext : Type 0 where
  no_ext any more less exact : Ext

-- One filter; the Boolean asks for the short form of the term.
pub data Clause : Type 0 where
  simple : Term → Bool → String → Clause
  prefix : Ext → Bool → String → Clause

unfoldable pub term_word : Term → Bool → String
term_word by_project short = if short then "proj" else "project"
term_word by_collector short = if short then "coll" else "collector"
term_word by_type short = "type"
term_word by_peer short = "peer"
term_word by_community short = if short then "comm" else "community"
term_word by_aspath short = if short then "path" else "aspath"
term_word by_extcommunity short = if short then "extc" else "extcommunity"
term_word by_ipversion short = if short then "ipv" else "ipversion"
term_word by_elemtype short = "elemtype"

unfoldable pub term_type : Term → FilterType
term_type by_project = project
term_type by_collector = collector
term_type by_type = record_type
term_type by_peer = elem_peer_asn
term_type by_community = elem_community
term_type by_aspath = elem_aspath
term_type by_extcommunity = elem_extended_community
term_type by_ipversion = elem_ip_version
term_type by_elemtype = elem_type

unfoldable pub ext_words : Ext → List String
ext_words no_ext = []
ext_words any = "any" ∷ []
ext_words more = "more" ∷ []
ext_words less = "less" ∷ []
ext_words exact = "exact" ∷ []

unfoldable pub ext_type : Ext → FilterType
ext_type no_ext = elem_prefix_more
ext_type any = elem_prefix_any
ext_type more = elem_prefix_more
ext_type less = elem_prefix_less
ext_type exact = elem_prefix_exact

unfoldable pub clause_words : Clause → List String
clause_words (simple t short word) = term_word t short ∷ word ∷ []
clause_words (prefix ext short word) =
    (if short then "pref" else "prefix") ∷ (ext_words ext ++ (word ∷ []))

-- The clauses, joined by "and".
unfoldable pub print : List Clause → List String
print [] = []
print (c ∷ []) = clause_words c
print (c ∷ d ∷ next) = clause_words c ++ ("and" ∷ print (d ∷ next))

-- What a clause asks bgpstream_add_filter for: nothing, if its type is not supported yet.
unfoldable pub type_filters : FilterType → String → List (FilterType × Option String)
type_filters type word = if is_supported type then (type, some word) ∷ [] else []

unfoldable pub clause_filters : Clause → List (FilterType × Option String)
clause_filters (simple t short word) = type_filters (term_type t) word
clause_filters (prefix ext short word) = type_filters (ext_type ext) word

unfoldable pub filters : List Clause → List (FilterType × Option String)
filters [] = []
filters (c ∷ next) = clause_filters c ++ filters next

-- A word that does not begin with a quote, and one that is no extension.
abbrev pub IsPlain : String → Type 0
IsPlain String.[] = Unit {0}
IsPlain (String.◌∷◌ c s) = (code c == 34) ≡ false

unfoldable pub is_ext : String → Bool
is_ext word = str_eq word "any" || str_eq word "more" || str_eq word "less" || str_eq word "exact"

-- The value of a clause is one word without a quote in front, and after a bare `prefix` no extension.
unfoldable pub IsReadable : Clause → Type 0
IsReadable (simple t short word) = IsPlain word
IsReadable (prefix no_ext short word) = IsPlain word × (is_ext word ≡ false)
IsReadable (prefix ext short word) = IsPlain word
