-- ===== src/Elem/Effects.antt =====
-- lib/bgpstream_filter.c: what calls of filter_add do to each part of the filters.
use bgpstream.Base.{
  ℕ, ◌<◌, ◌≡◌, refl, sym, ap, ◌∙◌, Bool, true, false, ◌&&◌, ◌||◌, not, Option, none, some, List, [],
  ◌∷◌, arith, ◌==◌, or_false,
}
use bgpstream.FilterParser.{elem_ip_version}
use bgpstream.Elem.Filters.{ElemFilters, has_bit, id_exists}
use bgpstream.Elem.Expressions.{and_true, all}
use bgpstream.Elem.Calls.{
  Call, any, is_some, names_bit, names_type, is_peer, names_peer, is_expr, expr_or_other,
  version_after,
}
use bgpstream.Elem.Masks.{IsBit}

-- What calls do to each part of the filters.
pub record MaskEffect (m m' : ℕ) (calls : List Call) : Type 0 where
  pub small : m' < 16
  pub bits : (b : ℕ) → IsBit b → has_bit m' b ≡ (has_bit m b || any (names_bit b) calls)
  pub empty : (m' == 0) ≡ ((m == 0) && not (any names_type calls))

abbrev or_nil {ℓ} : {A : Type ℓ} → Option (List A) → List A
or_nil none = []
or_nil (some xs) = xs

pub record PeerEffect (s s' : Option (List ℕ)) (calls : List Call) : Type 0 where
  pub member :
      (asn : ℕ)
      → id_exists (or_nil s') asn ≡ (id_exists (or_nil s) asn || any (names_peer asn) calls)
  pub present : is_some s' ≡ (is_some s || any is_peer calls)

pub record ExprEffect (s s' : Option (List (List ℕ))) (calls : List Call) : Type 0 where
  pub hold :
      (p : List ℕ → Bool) → all p (or_nil s') ≡ (all p (or_nil s) && all (expr_or_other p) calls)
  pub present : is_some s' ≡ (is_some s || any is_expr calls)

pub record Effect (f g : ElemFilters) (calls : List Call) : Type 0 where
  pub mask : MaskEffect f.elemtype_mask g.elemtype_mask calls
  pub peers : PeerEffect f.peer_asns g.peer_asns calls
  pub exprs : ExprEffect f.aspath_exprs g.aspath_exprs calls
  pub version : g.ipversion ≡ version_after f.ipversion calls
  pub same_prefixes : g.prefixes ≡ f.prefixes
  pub same_communities : g.communities ≡ f.communities

pub no_calls : (f : ElemFilters) → f.elemtype_mask < 16 → Effect f f []
unfolding any all version_after
no_calls f small = record {
  mask = record {
    small = small;
    bits = λ b i. sym (or_false (has_bit f.elemtype_mask b));
    empty = ground arith;
  };
  peers = record {
    member = λ asn. sym (or_false (id_exists (or_nil f.peer_asns) asn));
    present = sym (or_false (is_some f.peer_asns));
  };
  exprs = record {
    hold = λ p. sym (and_true (all p (or_nil f.aspath_exprs)));
    present = sym (or_false (is_some f.aspath_exprs));
  };
  version = refl;
  same_prefixes = refl;
  same_communities = refl;
}

-- One more call in front.
mask-cons :
    (m n k : ℕ) (c : Call) (calls : List Call)
    → MaskEffect m n (c ∷ [])
    → MaskEffect n k calls
    → MaskEffect m k (c ∷ calls)
unfolding any
mask-cons m n k c calls a b = record {
  small = b.small;
  bits = λ x i. let p = a.bits x i in let q = b.bits x i in ground arith;
  empty = let p = a.empty in let q = b.empty in ground arith;
}

peers-cons :
    (s t u : Option (List ℕ)) (c : Call) (calls : List Call)
    → PeerEffect s t (c ∷ [])
    → PeerEffect t u calls
    → PeerEffect s u (c ∷ calls)
unfolding any
peers-cons s t u c calls a b = record {
  member = λ asn. let p = a.member asn in let q = b.member asn in ground arith;
  present = let p = a.present in let q = b.present in ground arith;
}

exprs-cons :
    (s t u : Option (List (List ℕ))) (c : Call) (calls : List Call)
    → ExprEffect s t (c ∷ [])
    → ExprEffect t u calls
    → ExprEffect s u (c ∷ calls)
unfolding any all
exprs-cons s t u c calls a b = record {
  hold = λ p. let x = a.hold p in let y = b.hold p in ground arith;
  present = let p = a.present in let q = b.present in ground arith;
}

version_after-cons :
    (v : ℕ) (c : Call) (calls : List Call)
    → version_after v (c ∷ calls) ≡ version_after (version_after v (c ∷ [])) calls
unfolding version_after
version_after-cons v (elem_ip_version, text) calls = refl
version_after-cons v (k, text) calls = refl

pub Effect-cons :
    (f g h : ElemFilters) (c : Call) (calls : List Call)
    → Effect f g (c ∷ [])
    → Effect g h calls
    → Effect f h (c ∷ calls)
Effect-cons f g h c calls a b = record {
  mask = mask-cons f.elemtype_mask g.elemtype_mask h.elemtype_mask c calls a.mask b.mask;
  peers = peers-cons f.peer_asns g.peer_asns h.peer_asns c calls a.peers b.peers;
  exprs = exprs-cons f.aspath_exprs g.aspath_exprs h.aspath_exprs c calls a.exprs b.exprs;
  version =
      b.version
      ∙ ap (λ v. version_after v calls) a.version
      ∙ sym (version_after-cons f.ipversion c calls);
  same_prefixes = b.same_prefixes ∙ a.same_prefixes;
  same_communities = b.same_communities ∙ a.same_communities;
}

-- A call that leaves a part alone.
pub mask_idle :
    (m : ℕ) (c : Call)
    → m < 16
    → ((b : ℕ) → names_bit b c ≡ false)
    → names_type c ≡ false
    → MaskEffect m m (c ∷ [])
unfolding any
mask_idle m c small n t = record {
  small = small;
  bits = λ b i. let e = n b in ground arith;
  empty = ground arith;
}

pub peers_idle :
    (s : Option (List ℕ)) (c : Call)
    → ((asn : ℕ) → names_peer asn c ≡ false)
    → is_peer c ≡ false
    → PeerEffect s s (c ∷ [])
unfolding any
peers_idle s c n p = record {
  member = λ asn. let e = n asn in ground arith;
  present = ground arith;
}

pub exprs_idle :
    (s : Option (List (List ℕ))) (c : Call)
    → ((p : List ℕ → Bool) → expr_or_other p c ≡ true)
    → is_expr c ≡ false
    → ExprEffect s s (c ∷ [])
unfolding any all
exprs_idle s c n e = record { hold = λ p. let h = n p in ground arith; present = ground arith }
