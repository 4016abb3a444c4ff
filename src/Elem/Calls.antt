-- ===== src/Elem/Calls.antt =====
-- lib/bgpstream_filter.c and lib/bgpstream_record.c: what calls of filter_add ask for, told from
-- the calls alone.
use bgpstream.Base.CString.{strtoul}
use bgpstream.Base.{
  ℕ, ◌%◌, ◌^◌, Bool, true, false, ◌&&◌, ◌||◌, not, Option, none, some, List, [], ◌∷◌, ◌==◌, length,
  take,
}
use bgpstream.FilterParser.{
  FilterType, elem_peer_asn, elem_prefix, elem_community, elem_prefix_exact, elem_prefix_more,
  elem_prefix_less, elem_prefix_any, elem_aspath, elem_ip_version, elem_type,
}
use bgpstream.Elem.Filters.{
  Elem, ElemType, unknown_type, rib, announcement, withdrawal, peerstate, Regex, type_rib,
  type_announcement, type_withdrawal, type_peerstate, version_passes, is_withdrawal_or_state,
}
use bgpstream.Elem.Adding.{type_bit, version_named}
use bgpstream.Elem.Expressions.{all, expr_holds, filterable}

abbrev pub Call : Type 0
Call = FilterType × List ℕ

unfoldable pub any : (Call → Bool) → List Call → Bool
any p [] = false
any p (x ∷ xs) = p x || any p xs

unfoldable pub names : Option ℕ → ℕ → Bool
names none bit = false
names (some b) bit = b == bit

unfoldable pub is_some {ℓ} : {A : Type ℓ} → Option A → Bool
is_some none = false
is_some (some a) = true

-- A call that names the element type of a bit, one that names any type, and so on.
unfoldable pub names_bit : ℕ → Call → Bool
names_bit bit (elem_type, text) = names (type_bit text) bit
names_bit bit _ = false

unfoldable pub names_type : Call → Bool
names_type (elem_type, text) = is_some (type_bit text)
names_type _ = false

unfoldable pub is_peer : Call → Bool
is_peer (elem_peer_asn, text) = true
is_peer _ = false

unfoldable pub names_peer : ℕ → Call → Bool
names_peer asn (elem_peer_asn, text) = (strtoul text).0 % 2 ^ 32 == asn
names_peer asn _ = false

unfoldable pub is_expr : Call → Bool
is_expr (elem_aspath, text) = true
is_expr _ = false

unfoldable pub expr_or_other : (List ℕ → Bool) → Call → Bool
expr_or_other p (elem_aspath, text) = p text
expr_or_other p _ = true

-- The version of the last call that names one.
unfoldable pub version_after : ℕ → List Call → ℕ
version_after v [] = v
version_after v ((elem_ip_version, text) ∷ calls) =
    version_after (elim (version_named text) [ none ↦ v | some w ↦ w ]) calls
version_after v (_ ∷ calls) = version_after v calls

-- No call is about prefixes or communities.
unfoldable pub is_plain : Call → Bool
is_plain (elem_prefix, text) = false
is_plain (elem_prefix_more, text) = false
is_plain (elem_prefix_less, text) = false
is_plain (elem_prefix_exact, text) = false
is_plain (elem_prefix_any, text) = false
is_plain (elem_community, text) = false
is_plain _ = true

unfoldable pub type_named : List Call → ElemType → Bool
type_named calls unknown_type = true
type_named calls rib = any (names_bit type_rib) calls
type_named calls announcement = any (names_bit type_announcement) calls
type_named calls withdrawal = any (names_bit type_withdrawal) calls
type_named calls peerstate = any (names_bit type_peerstate) calls

-- Of each kind that has been asked for, the element has one that has been named; the last version
-- counts; and its AS path, which is there and not empty, meets all expressions.
unfoldable pub accepts : Regex → List Call → Elem → Bool
accepts rx calls elem =
    (not (any names_type calls) || type_named calls elem.elem_type)
    && ((not (any is_peer calls) || any (names_peer elem.peer_asnumber) calls)
        && (version_passes (version_after 0 calls) elem
            && (not (any is_expr calls)
                || (not (is_withdrawal_or_state elem.elem_type)
                    && (not (length (filterable elem.aspath) == 0)
                        && all (expr_or_other (expr_holds rx (take 65534 (filterable elem.aspath))))
                            calls)))))
