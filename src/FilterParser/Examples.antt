-- ===== src/FilterParser/Examples.antt =====
-- Filter strings that bgpstream_parse_filter_string reads.
use Prim.Native.String.{◌++◌}
use bgpstream.Base.{◌≡◌, refl, true, false, some, List, [], ◌∷◌, All}
use bgpstream.Base.Text.{str_eq}
use bgpstream.FilterParser
use bgpstream.FilterParser.{
  FilterType, project, elem_aspath, elem_prefix_more, elem_prefix_exact, is_supported, parse_words,
  parse_filter_string, has_quote, before_quote,
}
use bgpstream.FilterParser.Words.{join, IsWord}
use bgpstream.FilterParser.Language.{
  Clause, simple, prefix, by_project, by_aspath, exact, IsReadable, print, filters, term_word,
  clause_words, ext_words, term_type,
}
use bgpstream.FilterParser.RoundTrip.{parse_filter_string-print}
use bgpstream.FilterParser.Quoted.{quoted_twice}

-- project ris and pref exact 10.0.0.0/8
abbrev second_clause : List Clause
second_clause = prefix exact true "10.0.0.0/8" ∷ []

both-IsReadable :
    (IsReadable (simple by_project false "ris")) × IsReadable (prefix exact true "10.0.0.0/8")
unfolding IsReadable
both-IsReadable = (refl, refl)

words-IsWord : All IsWord (print (simple by_project false "ris" ∷ second_clause))
unfolding print clause_words term_word ext_words
words-IsWord = (
  (refl, (refl, (refl, (refl, (refl, (refl, (refl, tt))))))),
  (
    (refl, (refl, (refl, tt))),
    (
      (refl, (refl, (refl, tt))),
      (
        (refl, (refl, (refl, (refl, tt)))),
        (
          (refl, (refl, (refl, (refl, (refl, tt))))),
          ((refl, (refl, (refl, (refl, (refl, (refl, (refl, (refl, (refl, (refl, tt)))))))))), tt),
        ),
      ),
    ),
  ),
)

parse_filter_string-print_example :
    parse_filter_string (join (print (simple by_project false "ris" ∷ second_clause)))
    ≡ (filters (simple by_project false "ris" ∷ second_clause), true)
parse_filter_string-print_example =
    parse_filter_string-print (simple by_project false "ris") second_clause
      (both-IsReadable.0, (both-IsReadable.1, tt)) words-IsWord

supported : is_supported (term_type by_aspath) ≡ true
unfolding is_supported term_type
supported = refl

unclosed :
    (has_quote "_100" ≡ false)
    × ((has_quote "200_\"" ≡ true) × (str_eq (before_quote "200_\"") "" ≡ false))
unfolding has_quote before_quote
unclosed = (refl, (refl, refl))

-- aspath "_100 200_" as two words.
quoted_twice_example :
    parse_words (term_word by_aspath false ∷ "\"_100" ∷ "200_\"" ∷ []) FilterParser.create ≡ (
      (term_type by_aspath, some "_100")
          ∷ (term_type by_aspath, some ("_100" ++ (" " ++ before_quote "200_\"")))
          ∷ [],
      true,
    )
quoted_twice_example =
    quoted_twice by_aspath false _ "_100" "200_\"" supported refl unclosed.0 refl unclosed.1.0
      unclosed.1.1
