-- ===== src/FilterParser/Clauses.antt =====
-- What bgpstream_parse_filter_string does with the words of one clause.
use Prim.Native.String.{String}
use bgpstream.Base.Text.{str_eq}
use bgpstream.Base.{
  ◌≡◌, refl, sym, ap, ◌∙◌, Bool, true, false, Option, none, some, List, [], ◌∷◌, ◌++◌,
  if◌then◌else◌, inl, inr, Bool-cases,
}
use bgpstream.FilterParser.{
  FilterType, elem_prefix_exact, elem_prefix_more, elem_prefix_less, elem_prefix_any, FpState, term,
  prefixext, value, endvalue, Parser, blank, is_supported, add_last, instantiate_filter, with_type,
  parse_filter_term, parse_value, parse_prefixext, parse_endvalue, instantiate_ended, parse_word,
  parse_words,
}
use bgpstream.FilterParser.Language.{
  Term, Ext, Clause, term_word, term_type, ext_words, ext_type, clause_words, type_filters,
  clause_filters, IsPlain, is_ext, IsReadable, by_project, by_collector, by_type, by_peer,
  by_community, by_aspath, by_extcommunity, by_ipversion, by_elemtype, no_ext, any, more, less,
  exact, simple, prefix,
}

add_last-append :
    (xs : List (FilterType × Option String)) (x : FilterType × Option String)
    → add_last xs x ≡ xs ++ (x ∷ [])
unfolding add_last
add_last-append [] x = refl
add_last-append (y ∷ ys) x = ap (◌∷◌ y) (add_last-append ys x)

pub append-nil : (xs : List (FilterType × Option String)) → xs ++ [] ≡ xs
append-nil [] = refl
append-nil (x ∷ xs) = ap (◌∷◌ x) (append-nil xs)

pub append_assoc :
    (xs ys zs : List (FilterType × Option String)) → (xs ++ ys) ++ zs ≡ xs ++ (ys ++ zs)
append_assoc [] ys zs = refl
append_assoc (x ∷ xs) ys zs = ap (◌∷◌ x) (append_assoc xs ys zs)

-- The machine in a state, with a type and a value.
abbrev pub at_word : FpState → FilterType → String → List (FilterType × Option String) → Parser
at_word state type word acc = record {
  state = state;
  item = record { termtype = some type; word = some word };
  added = acc;
}

abbrev pub at_start : List (FilterType × Option String) → Parser
at_start acc = record { state = term; item = blank; added = acc }

abbrev pub at_type : FpState → FilterType → List (FilterType × Option String) → Parser
at_type state type acc = record {
  state = state;
  item = record { termtype = some type; word = none };
  added = acc;
}

instantiate_filter_lem :
    (state : FpState) (type : FilterType) (word : String) (acc : List (FilterType × Option String))
    → instantiate_filter (at_word state type word acc)
      ≡ at_word state type word (acc ++ type_filters type word)
unfolding instantiate_filter type_filters
instantiate_filter_lem state type word acc = elim (Bool-cases (is_supported type)) [
  | inl kept ↦ rw kept (ap (at_word state type word) (add_last-append acc (type, some word)))
  | inr dropped ↦ rw dropped (ap (at_word state type word) (sym (append-nil acc)))
]

pub parse_filter_term_lem :
    (t : Term) (short : Bool) (acc : List (FilterType × Option String))
    → parse_filter_term (term_word t short) (at_start acc) ≡ some (at_type value (term_type t) acc)
unfolding parse_filter_term term_word term_type with_type
parse_filter_term_lem by_project true acc = refl
parse_filter_term_lem by_project false acc = refl
parse_filter_term_lem by_collector true acc = refl
parse_filter_term_lem by_collector false acc = refl
parse_filter_term_lem by_type short acc = refl
parse_filter_term_lem by_peer short acc = refl
parse_filter_term_lem by_community true acc = refl
parse_filter_term_lem by_community false acc = refl
parse_filter_term_lem by_aspath true acc = refl
parse_filter_term_lem by_aspath false acc = refl
parse_filter_term_lem by_extcommunity true acc = refl
parse_filter_term_lem by_extcommunity false acc = refl
parse_filter_term_lem by_ipversion true acc = refl
parse_filter_term_lem by_ipversion false acc = refl
parse_filter_term_lem by_elemtype short acc = refl

parse_value_lem :
    (state : FpState) (type : FilterType) (word : String) (acc : List (FilterType × Option String))
    → IsPlain word
    → parse_value word (at_type state type acc) ≡ at_word endvalue type word acc
unfolding parse_value
parse_value_lem state type String.[] acc p = refl
parse_value_lem state type (String.◌∷◌ c s) acc p = rw p refl

-- A value in the state VALUE: it is read and its filter added.
value-parse_words :
    (type : FilterType) (word : String) (rest : List String)
    (acc : List (FilterType × Option String))
    → IsPlain word
    → parse_words (word ∷ rest) (at_type value type acc)
      ≡ parse_words rest (at_word endvalue type word (acc ++ type_filters type word))
unfolding parse_words parse_word
value-parse_words type word rest acc p =
    rw (parse_value_lem value type word acc p, instantiate_filter_lem endvalue type word acc) refl

module _ (word : String) (rest : List String) (acc : List (FilterType × Option String))
    (p : IsPlain word) where
  bare-prefix :
      is_ext word ≡ false
      → parse_words (word ∷ rest) (at_type prefixext elem_prefix_more acc)
        ≡ parse_words rest
            (at_word endvalue elem_prefix_more word (acc ++ type_filters elem_prefix_more word))
  unfolding parse_words parse_word parse_prefixext is_ext instantiate_ended
  bare-prefix q = elim (Bool-cases (str_eq word "any")) [
    | inl e ↦ absurd (cc (rw e at q))
    | inr a ↦ elim (Bool-cases (str_eq word "more")) [
      | inl e ↦ absurd (cc (rw (a, e) at q))
      | inr m ↦ elim (Bool-cases (str_eq word "less")) [
        | inl e ↦ absurd (cc (rw (a, m, e) at q))
        | inr l ↦
            let x : str_eq word "exact" ≡ false = rw (a, m, l) at q in
            rw
              (
                a,
                m,
                l,
                x,
                parse_value_lem prefixext elem_prefix_more word acc p,
                instantiate_filter_lem endvalue elem_prefix_more word acc,
              )
              refl
      ]
    ]
  ]

  prefix-parse_words :
      (ext : Ext) (short : Bool)
      → IsReadable (prefix ext short word)
      → parse_words (ext_words ext ++ (word ∷ rest)) (at_type prefixext elem_prefix_more acc)
        ≡ parse_words rest
            (at_word endvalue (ext_type ext) word (acc ++ type_filters (ext_type ext) word))
  unfolding ext_words ext_type IsReadable parse_words parse_word parse_prefixext with_type
      instantiate_ended
  prefix-parse_words no_ext short q = bare-prefix q.1
  prefix-parse_words any short q = value-parse_words elem_prefix_any word rest acc p
  prefix-parse_words more short q = value-parse_words elem_prefix_more word rest acc p
  prefix-parse_words less short q = value-parse_words elem_prefix_less word rest acc p
  prefix-parse_words exact short q = value-parse_words elem_prefix_exact word rest acc p

pub clause_type : Clause → FilterType
clause_type (simple t short word) = term_type t
clause_type (prefix ext short word) = ext_type ext

pub clause_word : Clause → String
clause_word (simple t short word) = word
clause_word (prefix ext short word) = word

append-ext_words :
    (ext : Ext) (word : String) (rest : List String)
    → (ext_words ext ++ (word ∷ [])) ++ rest ≡ ext_words ext ++ (word ∷ rest)
unfolding ext_words
append-ext_words no_ext word rest = refl
append-ext_words any word rest = refl
append-ext_words more word rest = refl
append-ext_words less word rest = refl
append-ext_words exact word rest = refl

prefix_term :
    (short : Bool) (rest : List String) (acc : List (FilterType × Option String))
    → parse_words ((if short then "pref" else "prefix") ∷ rest) (at_start acc)
      ≡ parse_words rest (at_type prefixext elem_prefix_more acc)
unfolding parse_words parse_word parse_filter_term with_type
prefix_term true rest acc = refl
prefix_term false rest acc = refl

IsReadable-IsPlain :
    (ext : Ext) (short : Bool) (word : String) → IsReadable (prefix ext short word) → IsPlain word
unfolding IsReadable
IsReadable-IsPlain no_ext short word r = r.0
IsReadable-IsPlain any short word r = r
IsReadable-IsPlain more short word r = r
IsReadable-IsPlain less short word r = r
IsReadable-IsPlain exact short word r = r

-- A clause leaves the machine behind its value, with the clause's filter added.
pub clause-parse_words :
    (c : Clause) (rest : List String) (acc : List (FilterType × Option String))
    → IsReadable c
    → parse_words (clause_words c ++ rest) (at_start acc)
      ≡ parse_words rest
          (at_word endvalue (clause_type c) (clause_word c) (acc ++ clause_filters c))
unfolding clause_words clause_filters clause_type clause_word parse_words parse_word
clause-parse_words (simple t short word) rest acc r =
    rw (parse_words, parse_word, parse_filter_term_lem t short acc)
      (value-parse_words (term_type t) word rest acc (unfold IsReadable in r))
clause-parse_words (prefix ext short word) rest acc r =
    prefix_term short ((ext_words ext ++ (word ∷ [])) ++ rest) acc
    ∙ ap (λ ws. parse_words ws (at_type prefixext elem_prefix_more acc))
        (append-ext_words ext word rest)
    ∙ prefix-parse_words word rest acc (IsReadable-IsPlain ext short word r) ext short r

-- Behind a value, "and" begins the next clause, and the end of the words ends the parse.
pub and-parse_words :
    (type : FilterType) (word : String) (rest : List String)
    (acc : List (FilterType × Option String))
    → (parse_words ("and" ∷ rest) (at_word endvalue type word acc)
        ≡ parse_words rest (at_start acc))
      × (parse_words [] (at_word endvalue type word acc) ≡ (acc, true))
unfolding parse_words parse_word parse_endvalue
and-parse_words type word rest acc = (refl, refl)
