-- ===== src/Elem/Steps.antt =====
-- lib/bgpstream_filter.c: one call of filter_add, and calls one after the other.
use mathlib.Core.Path.{subst}
use bgpstream.Base.CString.{strtoul}
use bgpstream.Base.{
  ℕ, ◌%◌, ◌^◌, ◌<◌, ◌≡◌, inl, inr, refl, sym, ap, Bool, true, false, ◌&&◌, ◌||◌, Option, none, some,
  List, [], ◌∷◌, arith, ◌==◌, Bool-cases, Option-cases, or_false,
}
use bgpstream.Addr.Parse.{InetPton}
use bgpstream.FilterParser.{
  project, collector, record_type, elem_peer_asn, elem_aspath, elem_extended_community,
  elem_ip_version, elem_type,
}
use bgpstream.Elem.Filters.{ElemFilters, id_exists}
use bgpstream.Elem.Adding.{
  same_text, str_exists, str_insert, id_insert, type_bit, version_named, add_type, add_version,
  filter_add, filter_adds,
}
use bgpstream.Elem.Expressions.{all}
use bgpstream.Elem.Calls.{
  Call, any, names, is_some, names_bit, names_type, is_peer, names_peer, is_expr, expr_or_other,
  version_after, is_plain,
}
use bgpstream.Elem.Masks.{type_bit-IsBit, or_bits}
use bgpstream.Elem.Effects.{
  MaskEffect, PeerEffect, ExprEffect, Effect, no_calls, Effect-cons, mask_idle, peers_idle,
  exprs_idle,
}

mask_named :
    (f : ElemFilters) (text : List ℕ)
    → f.elemtype_mask < 16
    → MaskEffect f.elemtype_mask (add_type f text).elemtype_mask ((elem_type, text) ∷ [])
unfolding add_type any names_bit names_type names is_some
mask_named f text small = elim (Option-cases (type_bit text)) [
  | inl e ↦
      rw (add_type, e)
        (record {
          small = small;
          bits = λ b i. let unnamed : names (type_bit text) b ≡ false = rw e refl in ground arith;
          empty = ground arith;
        })
  | inr (bit, e) ↦
      let i = type_bit-IsBit text bit e in
      let (_, bound, nonzero) = or_bits f.elemtype_mask bit bit small i i in
      rw (add_type, e)
        (record {
          small = bound;
          bits = λ b j. let (same, _, _) = or_bits f.elemtype_mask bit b small i j in ground arith;
          empty = ground arith;
        })
]

peers_added :
    (s : Option (List ℕ)) (text : List ℕ)
    → PeerEffect s (id_insert s ((strtoul text).0 % 2 ^ 32)) ((elem_peer_asn, text) ∷ [])
unfolding id_insert id_exists any names_peer is_peer is_some
peers_added none text = record { member = λ asn. refl; present = refl }
peers_added (some ids) text =
    let id : ℕ = (strtoul text).0 % 2 ^ 32 in
    elim (Bool-cases (id_exists ids id)) [
      | inl there ↦ rw there (record {
        member = λ asn. elim (Bool-cases (id == asn)) [
          | inl own ↦
              let same : id ≡ asn = ground arith in
              let found : id_exists ids asn ≡ true = rw (sym same) there in rw found refl
          | inr other ↦ rw other (sym (or_false (id_exists ids asn)))
        ];
        present = refl;
      })
      | inr new ↦
          rw new
            (record { member = λ asn. or_swap (id == asn) (id_exists ids asn); present = refl })
    ]
  where
    or_swap : (a b : Bool) → (a || b) ≡ (b || (a || false))
    or_swap true true = refl
    or_swap true false = refl
    or_swap false true = refl
    or_swap false false = refl

same_text_sound : (x y : List ℕ) → same_text x y ≡ true → x ≡ y
unfolding same_text
same_text_sound [] [] e = refl
same_text_sound [] (y ∷ ys) e = absurd (cc e)
same_text_sound (x ∷ xs) [] e = absurd (cc e)
same_text_sound (x ∷ xs) (y ∷ ys) e =
    let head : x ≡ y = ground arith in
    let tail = same_text_sound xs ys (ground arith) in cc (head, tail)

all_there :
    (p : List ℕ → Bool) (set : List (List ℕ)) (text : List ℕ)
    → str_exists set text ≡ true
    → all p set ≡ (all p set && p text)
unfolding str_exists all
all_there p [] text e = absurd (cc e)
all_there p (x ∷ set) text e = elim (Bool-cases (same_text x text)) [
  | inl own ↦ let same : p x ≡ p text = ap p (same_text_sound x text own) in ground arith
  | inr other ↦ let rest = all_there p set text (rw other at e) in ground arith
]

exprs_added :
    (s : Option (List (List ℕ))) (text : List ℕ)
    → ExprEffect s (str_insert s text) ((elem_aspath, text) ∷ [])
unfolding str_insert all any expr_or_other is_expr is_some
exprs_added none text = record { hold = λ p. refl; present = refl }
exprs_added (some set) text = elim (Bool-cases (str_exists set text)) [
  | inl there ↦
      rw there
        (record { hold = λ p. let h = all_there p set text there in ground arith; present = refl })
  | inr new ↦ rw new (record { hold = λ p. ground arith; present = refl })
]

-- Where a call leaves the other parts.
type_others :
    (f : ElemFilters) (text : List ℕ)
    → ((add_type f text).peer_asns ≡ f.peer_asns)
      × ((add_type f text).aspath_exprs ≡ f.aspath_exprs)
      × ((add_type f text).ipversion ≡ f.ipversion)
      × ((add_type f text).prefixes ≡ f.prefixes)
      × ((add_type f text).communities ≡ f.communities)
unfolding add_type
type_others f text = elim (Option-cases (type_bit text)) [
  | inl e ↦ rw (add_type, e) (refl, refl, refl, refl, refl)
  | inr (bit, e) ↦ rw (add_type, e) (refl, refl, refl, refl, refl)
]

version_added :
    (f : ElemFilters) (text : List ℕ)
    → add_version f text
      ≡ record f { ipversion = version_after f.ipversion ((elem_ip_version, text) ∷ []) }
unfolding add_version
version_added f text = elim (Option-cases (version_named text)) [
  | inl e ↦
      let after : version_after f.ipversion ((elem_ip_version, text) ∷ []) ≡ f.ipversion =
        unfold version_after in rw (version_after, e) refl in
      rw (add_version, e) (ap (λ v. record f { ipversion = v }) (sym after))
  | inr (version, e) ↦
      let after : version_after f.ipversion ((elem_ip_version, text) ∷ []) ≡ version =
        unfold version_after in rw (version_after, e) refl in
      rw (add_version, e) (ap (λ v. record f { ipversion = v }) (sym after))
]

-- A call that changes none of the parts but the version.
idle-Effect :
    (f g : ElemFilters) (c : Call)
    → f.elemtype_mask < 16
    → ((b : ℕ) → names_bit b c ≡ false)
    → names_type c ≡ false
    → ((asn : ℕ) → names_peer asn c ≡ false)
    → is_peer c ≡ false
    → ((p : List ℕ → Bool) → expr_or_other p c ≡ true)
    → is_expr c ≡ false
    → (g.elemtype_mask ≡ f.elemtype_mask)
      × (g.peer_asns ≡ f.peer_asns)
      × (g.aspath_exprs ≡ f.aspath_exprs)
    → g.ipversion ≡ version_after f.ipversion (c ∷ [])
    → g.prefixes ≡ f.prefixes
    → g.communities ≡ f.communities
    → Effect f g (c ∷ [])
idle-Effect f g c small nb nt np ip ne ie (m, p, x) v pre comms = record {
  mask =
      subst (λ k. MaskEffect f.elemtype_mask k (c ∷ [])) (sym m)
        (mask_idle f.elemtype_mask c small nb nt);
  peers = subst (λ k. PeerEffect f.peer_asns k (c ∷ [])) (sym p) (peers_idle f.peer_asns c np ip);
  exprs =
      subst (λ k. ExprEffect f.aspath_exprs k (c ∷ [])) (sym x) (exprs_idle f.aspath_exprs c ne ie);
  version = v;
  same_prefixes = pre;
  same_communities = comms;
}

-- One call.
step-Effect :
    (env : InetPton) (f : ElemFilters) (c : Call)
    → is_plain c ≡ true
    → f.elemtype_mask < 16
    → (g : ElemFilters) × (filter_add env f c.0 c.1 ≡ some g) × Effect f g (c ∷ [])
unfolding filter_add is_plain names_bit names_type names_peer is_peer is_expr expr_or_other
    version_after
step-Effect env f (elem_type, text) e small =
    let c : Call = (elem_type, text) in
    let (p, x, v, pre, com') = type_others f text in
    (
      add_type f text,
      refl,
      record {
        mask = mask_named f text small;
        peers =
            subst (λ k. PeerEffect f.peer_asns k (c ∷ [])) (sym p)
              (peers_idle f.peer_asns c (λ asn. refl) refl);
        exprs =
            subst (λ k. ExprEffect f.aspath_exprs k (c ∷ [])) (sym x)
              (exprs_idle f.aspath_exprs c (λ q. refl) refl);
        version = v;
        same_prefixes = pre;
        same_communities = com';
      },
    )
step-Effect env f (elem_peer_asn, text) e small =
    let c : Call = (elem_peer_asn, text) in
    (
      record f { peer_asns = id_insert f.peer_asns ((strtoul text).0 % 2 ^ 32) },
      refl,
      record {
        mask = mask_idle f.elemtype_mask c small (λ b. refl) refl;
        peers = peers_added f.peer_asns text;
        exprs = exprs_idle f.aspath_exprs c (λ q. refl) refl;
        version = refl;
        same_prefixes = refl;
        same_communities = refl;
      },
    )
step-Effect env f (elem_aspath, text) e small =
    let c : Call = (elem_aspath, text) in
    (
      record f { aspath_exprs = str_insert f.aspath_exprs text },
      refl,
      record {
        mask = mask_idle f.elemtype_mask c small (λ b. refl) refl;
        peers = peers_idle f.peer_asns c (λ asn. refl) refl;
        exprs = exprs_added f.aspath_exprs text;
        version = refl;
        same_prefixes = refl;
        same_communities = refl;
      },
    )
step-Effect env f (elem_ip_version, text) e small =
    let c : Call = (elem_ip_version, text) in
    let g : ElemFilters = record f { ipversion = version_after f.ipversion (c ∷ []) } in
    (
      g,
      ap some (version_added f text),
      idle-Effect f g c small (λ b. refl) refl (λ a. refl) refl (λ q. refl) refl (refl, refl, refl)
          refl refl refl,
    )
step-Effect env f (project, text) e small =
    let g : ElemFilters = record f { projects = str_insert f.projects text } in
    (
      g,
      refl,
      idle-Effect f g (project, text) small (λ b. refl) refl (λ a. refl) refl (λ q. refl) refl
          (refl, refl, refl) refl refl refl,
    )
step-Effect env f (collector, text) e small =
    let g : ElemFilters = record f { collectors = str_insert f.collectors text } in
    (
      g,
      refl,
      idle-Effect f g (collector, text) small (λ b. refl) refl (λ a. refl) refl (λ q. refl) refl
          (refl, refl, refl) refl refl refl,
    )
step-Effect env f (record_type, text) e small =
    let g : ElemFilters = record f { bgp_types = str_insert f.bgp_types text } in
    (
      g,
      refl,
      idle-Effect f g (record_type, text) small (λ b. refl) refl (λ a. refl) refl (λ q. refl) refl
          (refl, refl, refl) refl refl refl,
    )
step-Effect env f (elem_extended_community, text) e small = (
  f,
  refl,
  idle-Effect f f (elem_extended_community, text) small (λ b. refl) refl (λ a. refl) refl
      (λ q. refl) refl (refl, refl, refl) refl refl refl,
)
step-Effect env f (k, text) e small = absurd (cc e)

-- Calls one after the other.
pub calls-Effect :
    (calls : List Call) (env : InetPton) (f : ElemFilters)
    → all is_plain calls ≡ true
    → f.elemtype_mask < 16
    → (g : ElemFilters) × (filter_adds env f calls ≡ some g) × Effect f g calls
unfolding filter_adds all
calls-Effect [] env f e small = (f, refl, no_calls f small)
calls-Effect (c ∷ calls) env f e small =
    let first : is_plain c ≡ true = ground arith in
    let (g, run, one) = step-Effect env f c first small in
    let (h, runs, rest) = calls-Effect calls env g (ground arith) one.mask.small in
    (h, rw (filter_adds, run) runs, Effect-cons f g h c calls one rest)
