-- ===== src/FilterParser.antt =====
-- lib/bgpstream_filter_parser.{h,c}: the state machine that reads a filter string word by word.
pub mod Words
pub mod Language
pub mod Clauses
pub mod RoundTrip
pub mod Quoted
mod Examples
use Prim.Native.Char.{Char, code}
use Prim.Native.String.{String, ◌++◌}
use bgpstream.Base.Text.{str_eq}
use bgpstream.Base.{
  ℕ, Bool, true, false, ◌||◌, Option, none, some, List, [], ◌∷◌, ◌==◌, if◌then◌else◌,
}

-- bgpstream_filter_type_t.
pub data FilterType : Type 0 where
  project collector record_type elem_peer_asn elem_prefix elem_community elem_prefix_exact :
      FilterType
  elem_prefix_more elem_prefix_less elem_prefix_any elem_aspath elem_extended_community : FilterType
  elem_ip_version elem_type : FilterType

-- fp_state_t without FAIL, which ends the parse.
pub data FpState : Type 0 where
  term prefixext value quotedvalue endvalue : FpState

-- bgpstream_filter_item_t as calloc leaves it (no type, no value), or filled.
pub record FilterItem : Type 0 where
  pub termtype : Option FilterType
  pub word : Option String

-- The state of the machine, and the calls of bgpstream_add_filter so far, in their order.
pub record Parser : Type 0 where
  pub state : FpState
  pub item : FilterItem
  pub added : List (FilterType × Option String)

abbrev pub blank : FilterItem
blank = record { termtype = none; word = none }

abbrev pub create : Parser
create = record { state = term; item = blank; added = [] }

-- The switch of instantiate_filter: whether the type is handed to bgpstream_add_filter.
unfoldable pub is_supported : FilterType → Bool
is_supported elem_extended_community = false
is_supported elem_prefix = false
is_supported _ = true

unfoldable pub add_last :
    List (FilterType × Option String)
    → FilterType × Option String
    → List (FilterType × Option String)
add_last [] x = x ∷ []
add_last (y ∷ ys) x = y ∷ add_last ys x

unfoldable pub instantiate_filter : Parser → Parser
instantiate_filter p = elim p.item.termtype [
  | none ↦ p
  | some type ↦
      if is_supported type then record p { added = add_last p.added (type, p.item.word) } else p
]

-- curr->termtype = type; *state = state.
unfoldable pub with_type : Parser → FilterType → FpState → Parser
with_type p type state = record p {
  state = state;
  item = record { termtype = some type; word = p.item.word };
}

-- bgpstream_parse_filter_term: `none` is FAIL.
unfoldable pub parse_filter_term : String → Parser → Option Parser
parse_filter_term word p =
    if str_eq word "project" || str_eq word "proj"
    then some (with_type p project value)
    else if str_eq word "collector" || str_eq word "coll"
    then some (with_type p collector value)
    else if str_eq word "type"
    then some (with_type p record_type value)
    else if str_eq word "peer"
    then some (with_type p elem_peer_asn value)
    else if str_eq word "prefix" || str_eq word "pref"
    then some (with_type p elem_prefix_more prefixext)
    else if str_eq word "community" || str_eq word "comm"
    then some (with_type p elem_community value)
    else if str_eq word "aspath" || str_eq word "path"
    then some (with_type p elem_aspath value)
    else if str_eq word "extcommunity" || str_eq word "extc"
    then some (with_type p elem_extended_community value)
    else if str_eq word "ipversion" || str_eq word "ipv"
    then some (with_type p elem_ip_version value)
    else if str_eq word "elemtype"
    then some (with_type p elem_type value)
    else none

-- strchr(value, '"') and the text that *endquote = 0 leaves.
unfoldable pub has_quote : String → Bool
has_quote String.[] = false
has_quote (String.◌∷◌ c s) = if code c == 34 then true else has_quote s

unfoldable pub before_quote : String → String
before_quote String.[] = ""
before_quote (String.◌∷◌ c s) =
    let rest = before_quote s in if code c == 34 then "" else String.◌∷◌ c rest

-- The value after one more part: the parts are joined by a space.
unfoldable pub append_part : Option String → String → String
append_part none part = part
append_part (some word) part = word ++ (" " ++ part)

unfoldable pub parse_quotedvalue : String → Parser → Parser
parse_quotedvalue text p =
    let part = before_quote text in
    let p' = if has_quote text then record p { state = endvalue } else p in
    if str_eq part "" then p' else record p' {
      item = record { termtype = p.item.termtype; word = some (append_part p.item.word part) };
    }

-- The first part of bgpstream_parse_value is the test of the first character.
unfoldable pub parse_value : String → Parser → Parser
parse_value String.[] p = record p {
  state = endvalue;
  item = record { termtype = p.item.termtype; word = some "" };
}
parse_value (String.◌∷◌ c text) p =
    if code c == 34 then parse_quotedvalue text (record p { state = quotedvalue }) else record p {
      state = endvalue;
      item = record { termtype = p.item.termtype; word = some (String.◌∷◌ c text) };
    }

unfoldable pub parse_prefixext : String → Parser → Parser
parse_prefixext ext p =
    if str_eq ext "any"
    then with_type p elem_prefix_any value
    else if str_eq ext "more"
    then with_type p elem_prefix_more value
    else if str_eq ext "less"
    then with_type p elem_prefix_less value
    else if str_eq ext "exact"
    then with_type p elem_prefix_exact value
    else parse_value ext p

unfoldable pub parse_endvalue : String → Parser → Option Parser
parse_endvalue conj p =
    if str_eq conj "and" then some (record p { state = term; item = blank }) else none

-- if (state == ENDVALUE) instantiate_filter(bs, filteritem).
unfoldable pub instantiate_ended : Parser → Parser
instantiate_ended p = elim p.state [
  | endvalue ↦ instantiate_filter p
  | term ↦ p
  | prefixext ↦ p
  | value ↦ p
  | quotedvalue ↦ p
]

-- The switch of bgpstream_parse_filter_string on one word.
unfoldable pub parse_word : FpState → String → Parser → Option Parser
parse_word term tok p = parse_filter_term tok p
parse_word prefixext tok p = some (instantiate_ended (parse_prefixext tok p))
parse_word value tok p = some (instantiate_filter (parse_value tok p))
parse_word quotedvalue tok p = some (instantiate_ended (parse_quotedvalue tok p))
parse_word endvalue tok p = parse_endvalue tok p

-- The loop over the words: the filters added, and whether it returns 1.
unfoldable pub parse_words : List String → Parser → List (FilterType × Option String) × Bool
parse_words [] p = (p.added, true)
parse_words (tok ∷ toks) p = elim (parse_word p.state tok p) [
  | none ↦ (p.added, false)
  | some p' ↦ parse_words toks p'
]

-- strtok_r with the delimiter " ": the words of a text, none of them empty.
unfoldable pub keep_word : String → List String → List String
keep_word String.[] words = words
keep_word (String.◌∷◌ c word) words = String.◌∷◌ c word ∷ words

-- The word that a text begins with, and the words behind it.
unfoldable pub scan : String → String × List String
scan String.[] = ("", [])
scan (String.◌∷◌ c text) =
    let (word, words) = scan text in
    if code c == 32 then ("", keep_word word words) else (String.◌∷◌ c word, words)

unfoldable pub tokens : String → List String
tokens text = keep_word (scan text).0 (scan text).1

unfoldable pub parse_filter_string : String → List (FilterType × Option String) × Bool
parse_filter_string text = parse_words (tokens text) create
