-- ===== src/Elem/Accepted.antt =====
-- lib/bgpstream_filter.c and lib/bgpstream_record.c: what the filters that have been added let pass.
use bgpstream.Base.{
  ℕ, ◌≡◌, inl, inr, refl, sym, ap, ◌∙◌, Bool, true, false, ◌&&◌, ◌||◌, not, Option, none, some,
  List, arith, ◌==◌, if◌then◌else◌, length, take, Option-cases,
}
use bgpstream.Addr.Parse.{InetPton}
use bgpstream.Elem.Filters.{
  Elem, ElemType, unknown_type, rib, announcement, withdrawal, peerstate, ElemFilters, Regex,
  has_bit, type_passes, id_exists, peer_passes, is_withdrawal_or_state, check_rest, check_filters,
}
use bgpstream.Elem.Adding.{filter_adds, no_filters}
use bgpstream.Elem.Expressions.{IsPosix, all, expr_holds, filterable, check_aspath_lem}
use bgpstream.Elem.Calls.{
  Call, any, is_some, names_type, is_peer, names_peer, is_expr, expr_or_other, is_plain, type_named,
  accepts,
}
use bgpstream.Elem.Masks.{IsBit}
use bgpstream.Elem.Effects.{MaskEffect, PeerEffect, ExprEffect}
use bgpstream.Elem.Steps.{calls-Effect}

type_passes_named :
    (m : ℕ) (calls : List Call) (t : ElemType)
    → MaskEffect 0 m calls
    → type_passes m t ≡ type_named calls t
unfolding type_passes type_named IsBit any has_bit
type_passes_named m calls unknown_type e = refl
type_passes_named m calls rib e = e.bits 1 (inl refl)
type_passes_named m calls announcement e = e.bits 2 (inr (inl refl))
type_passes_named m calls withdrawal e = e.bits 4 (inr (inr (inl refl)))
type_passes_named m calls peerstate e = e.bits 8 (inr (inr (inr refl)))

peer_passes_named :
    (s : Option (List ℕ)) (calls : List Call) (asn : ℕ)
    → PeerEffect none s calls
    → peer_passes s asn ≡ (not (any is_peer calls) || any (names_peer asn) calls)
unfolding peer_passes is_some id_exists
peer_passes_named none calls asn e = let absent = e.present in ground arith
peer_passes_named (some ids) calls asn e =
    let there = e.present in let known = e.member asn in ground arith

rest_passes :
    (rx : Regex) (g : ElemFilters) (elem : Elem) (calls : List Call)
    → IsPosix rx
    → ExprEffect none g.aspath_exprs calls
    → g.communities ≡ none
    → check_rest rx g elem ≡ (
        not (any is_expr calls)
        || (not (is_withdrawal_or_state elem.elem_type)
            && (not (length (filterable elem.aspath) == 0)
                && all
                    (expr_or_other (expr_holds rx (take 65534 (filterable elem.aspath))))
                    calls)))
unfolding check_rest is_some all
rest_passes rx g elem calls posix e none_wanted = elim (Option-cases g.aspath_exprs) [
  | inl absent ↦
      let asked : any is_expr calls ≡ false = sym e.present ∙ ap is_some absent in
      rw (check_rest, absent, none_wanted, asked) refl
  | inr (exprs, there) ↦
      let p = expr_holds rx (take 65534 (filterable elem.aspath)) in
      let asked : any is_expr calls ≡ true = sym e.present ∙ ap is_some there in
      let hold : all p exprs ≡ all (expr_or_other p) calls = rw there at (e.hold p) in
      rw (check_rest, there, asked)
        (check_aspath_lem rx exprs elem posix
          ∙ ap
              (λ b.
                not (is_withdrawal_or_state elem.elem_type)
                && (not (length (filterable elem.aspath) == 0) && b))
              hold)
]

-- The guards one after the other.
guards {ℓ} :
    {A : Type ℓ} (asked named peer version rest : Bool) (g : A)
    → ◌≡◌ {A = Option (Bool × A)}
        (if not (not asked) && not named
          then some (false, g)
          else if not peer
          then some (false, g)
          else if not version
          then some (false, g)
          else some (rest, g))
        (some ((not asked || named) && (peer && (version && rest)), g))
guards true false peer version rest g = refl
guards true true true true rest g = refl
guards true true true false rest g = refl
guards true true false version rest g = refl
guards false named true true rest g = refl
guards false named true false rest g = refl
guards false named false version rest g = refl

-- For any calls of filter_add that are not about prefixes or communities, on new filters, and for
-- regular expressions that compile: all calls are defined, check_filters leaves the filters as they
-- are, and an element passes exactly if all of these hold. Where a call names a type, the element has
-- one of the types that the calls name, or the type UNKNOWN. Where a call is about a peer, its peer is
-- one that they name. It has the version of the last call that names one, if any does; a peer state
-- passes only if none does. Where a call is about AS paths, it is not a withdrawal or peer state, its
-- AS path is not empty, and the text of this path, cut after 65534 bytes, meets all the expressions,
-- those with `!` included.
pub check_filters-accepts :
    (rx : Regex) (env : InetPton) (calls : List Call) (elem : Elem)
    → IsPosix rx
    → all is_plain calls ≡ true
    → (g : ElemFilters) × (filter_adds env no_filters calls ≡ some g)
      × (check_filters rx g elem ≡ some (accepts rx calls elem, g))
unfolding check_filters accepts
check_filters-accepts rx env calls elem posix plain =
    let (g, run, e) = calls-Effect calls env no_filters plain (omega arith) in
    let types = type_passes_named g.elemtype_mask calls elem.elem_type e.mask in
    let on = e.mask.empty in
    let peers = peer_passes_named g.peer_asns calls elem.peer_asnumber e.peers in
    let rest = rest_passes rx g elem calls posix e.exprs e.same_communities in
    (
      g,
      run,
      rw (check_filters, types, on, peers, e.version, e.same_prefixes, rest)
          (guards (any names_type calls) (type_named calls elem.elem_type) _ _ _ g),
    )
