-- ===== src/FilterParser/RoundTrip.antt =====
-- A filter written in the language is read back by bgpstream_parse_filter_string.
use Prim.Native.String.{String}
use bgpstream.Base.{◌≡◌, refl, sym, ap, ◌∙◌, true, Option, List, [], ◌∷◌, ◌++◌, All}
use bgpstream.FilterParser.{FilterType, create, parse_words, parse_filter_string}
use bgpstream.FilterParser.Words.{IsWord, join, tokens-join}
use bgpstream.FilterParser.Language.{
  Clause, clause_words, print, clause_filters, filters, IsReadable,
}
use bgpstream.FilterParser.Clauses.{
  append-nil, append_assoc, at_start, clause_type, clause_word, clause-parse_words, and-parse_words,
}

append-words : (xs ys zs : List String) → (xs ++ ys) ++ zs ≡ xs ++ (ys ++ zs)
append-words [] ys zs = refl
append-words (x ∷ xs) ys zs = ap (◌∷◌ x) (append-words xs ys zs)

words-nil : (xs : List String) → xs ++ [] ≡ xs
words-nil [] = refl
words-nil (x ∷ xs) = ap (◌∷◌ x) (words-nil xs)

-- The words of one or more clauses are read back: the parse succeeds, and behind the filters that
-- were there it adds those of the clauses, in their order.
pub parse_words-print :
    (c : Clause) (next : List Clause) (acc : List (FilterType × Option String))
    → All IsReadable (c ∷ next)
    → parse_words (print (c ∷ next)) (at_start acc) ≡ (acc ++ filters (c ∷ next), true)
unfolding print filters
parse_words-print c [] acc r =
    ap (λ ws. parse_words ws (at_start acc)) (sym (words-nil (clause_words c)))
    ∙ clause-parse_words c [] acc r.0
    ∙ (and-parse_words (clause_type c) (clause_word c) [] (acc ++ clause_filters c)).1
    ∙ ap (λ fs. (acc ++ fs, true)) (sym (append-nil (clause_filters c)))
parse_words-print c (d ∷ next) acc r =
    clause-parse_words c ("and" ∷ print (d ∷ next)) acc r.0
    ∙ (and-parse_words (clause_type c) (clause_word c) (print (d ∷ next))
        (acc ++ clause_filters c)).0
    ∙ parse_words-print d next (acc ++ clause_filters c) r.1
    ∙ ap (λ fs. (fs, true)) (append_assoc acc (clause_filters c) (filters (d ∷ next)))

-- A filter string made of one or more clauses, joined by "and" and by single spaces, is read back:
-- the call returns 1 and adds the filters of the clauses in their order. Each value is one word without
-- a quote in front, and after a bare `prefix` no extension.
pub parse_filter_string-print :
    (c : Clause) (next : List Clause)
    → All IsReadable (c ∷ next)
    → All IsWord (print (c ∷ next))
    → parse_filter_string (join (print (c ∷ next))) ≡ (filters (c ∷ next), true)
unfolding parse_filter_string
parse_filter_string-print c next r w =
    ap (λ ws. parse_words ws create) (tokens-join (print (c ∷ next)) w)
    ∙ parse_words-print c next [] r
