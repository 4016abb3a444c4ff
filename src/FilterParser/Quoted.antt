-- ===== src/FilterParser/Quoted.antt =====
-- Values in quotes that span two words.
use Prim.Native.Char.{Char, code}
use Prim.Native.String.{String, ◌++◌}
use bgpstream.Base.Text.{str_eq}
use bgpstream.Base.{
  ◌≡◌, refl, ap, ◌∙◌, Bool, true, false, Option, some, List, [], ◌∷◌, ◌==◌, Bool-cases, inl, inr,
}
use bgpstream.FilterParser.{
  FilterType, value, quotedvalue, create, is_supported, add_last, instantiate_filter, has_quote,
  before_quote, append_part, parse_quotedvalue, parse_value, instantiate_ended, parse_word,
  parse_words,
}
use bgpstream.FilterParser.Language.{Term, term_word, term_type}
use bgpstream.FilterParser.Clauses.{at_type, at_word, parse_filter_term_lem}

before_quote_lem : (text : String) → has_quote text ≡ false → before_quote text ≡ text
unfolding has_quote before_quote
before_quote_lem String.[] h = refl
before_quote_lem (String.◌∷◌ c text) h = elim (Bool-cases (code c == 34)) [
  | inl quote ↦ absurd (cc (rw quote at h))
  | inr plain ↦ rw plain (ap (String.◌∷◌ c) (before_quote_lem text (rw plain at h)))
]

term-parse_words :
    (t : Term) (short : Bool) (rest : List String)
    → parse_words (term_word t short ∷ rest) create
      ≡ parse_words rest (at_type value (term_type t) [])
unfolding parse_words parse_word
term-parse_words t short rest = rw (parse_words, parse_word, parse_filter_term_lem t short []) refl

open-parse_words :
    (type : FilterType) (quote : Char) (first : String) (rest : List String)
    → is_supported type ≡ true
    → (code quote == 34) ≡ true
    → has_quote first ≡ false
    → str_eq first "" ≡ false
    → parse_words (String.◌∷◌ quote first ∷ rest) (at_type value type [])
      ≡ parse_words rest (at_word quotedvalue type first ((type, some first) ∷ []))
unfolding parse_words parse_word parse_value parse_quotedvalue instantiate_filter append_part
    add_last
open-parse_words type quote first rest supported q unclosed some_first =
    rw (q, unclosed, before_quote_lem first unclosed, some_first, supported) refl

close-parse_words :
    (type : FilterType) (first second : String) (acc : List (FilterType × Option String))
    → is_supported type ≡ true
    → has_quote second ≡ true
    → str_eq (before_quote second) "" ≡ false
    → parse_words (second ∷ []) (at_word quotedvalue type first acc)
      ≡ (add_last acc (type, some (first ++ (" " ++ before_quote second))), true)
unfolding parse_words parse_word parse_quotedvalue instantiate_filter instantiate_ended append_part
close-parse_words type first second acc supported closed some_second =
    rw (closed, some_second, supported) refl

-- A value in quotes that spans two words, `"a` and a second one with the closing quote, behind a term
-- of a supported type: two filters are added, one with the first word alone and one with the whole
-- value.
pub quoted_twice :
    (t : Term) (short : Bool) (quote : Char) (first second : String)
    → is_supported (term_type t) ≡ true
    → (code quote == 34) ≡ true
    → has_quote first ≡ false
    → str_eq first "" ≡ false
    → has_quote second ≡ true
    → str_eq (before_quote second) "" ≡ false
    → parse_words (term_word t short ∷ String.◌∷◌ quote first ∷ second ∷ []) create ≡ (
      (term_type t, some first) ∷ (term_type t, some (first ++ (" " ++ before_quote second))) ∷ [],
      true,
    )
unfolding add_last
quoted_twice t short quote first second supported q unclosed some_first closed some_second =
    term-parse_words t short (String.◌∷◌ quote first ∷ second ∷ [])
    ∙ open-parse_words (term_type t) quote first (second ∷ []) supported q unclosed some_first
    ∙ close-parse_words (term_type t) first second _ supported closed some_second
