-- ===== src/FilterParser/Words.antt =====
-- The words of a filter string, as strtok_r finds them.
use Prim.Native.Char.{Char, code}
use Prim.Native.String.{String, ◌++◌}
use text.Mathlib.TextLemmas.{nil-append, cons-append}
use bgpstream.Base.{◌≡◌, refl, ap, ◌∙◌, true, false, List, [], ◌∷◌, ◌==◌, All}
use bgpstream.FilterParser.{keep_word, scan, tokens}

-- Words joined by single spaces.
unfoldable pub join : List String → String
join [] = ""
join (w ∷ []) = w
join (w ∷ x ∷ next) = w ++ (" " ++ join (x ∷ next))

abbrev pub HasNoSpace : String → Type 0
HasNoSpace String.[] = Unit {0}
HasNoSpace (String.◌∷◌ c s) = (code c == 32 ≡ false) × HasNoSpace s

-- A text that is one word.
abbrev pub IsWord : String → Type 0
IsWord String.[] = ⊥
IsWord (String.◌∷◌ c s) = (code c == 32 ≡ false) × HasNoSpace s

scan-word : (w : String) → HasNoSpace w → scan w ≡ (w, [])
unfolding scan
scan-word String.[] h = refl
scan-word (String.◌∷◌ c s) h = rw (h.0, scan-word s h.1) refl

scan-one :
    (c : Char) (text : String)
    → (code c == 32) ≡ true
    → scan (String.◌∷◌ c "" ++ text) ≡ ("", tokens text)
unfolding scan tokens
scan-one c text e =
    ap scan (cons-append c "" text ∙ ap (String.◌∷◌ c) (nil-append text)) ∙ rw e refl

scan-space : (w text : String) → HasNoSpace w → scan (w ++ (" " ++ text)) ≡ (w, tokens text)
unfolding scan
scan-space String.[] text h = ap scan (nil-append (" " ++ text)) ∙ scan-one _ text refl
scan-space (String.◌∷◌ c s) text h =
    ap scan (cons-append c s (" " ++ text)) ∙ rw (h.0, scan-space s text h.1) refl

keep-word : (w : String) (words : List String) → IsWord w → keep_word w words ≡ w ∷ words
unfolding keep_word
keep-word String.[] words h = absurd h
keep-word (String.◌∷◌ c s) words h = refl

HasNoSpace-word : (w : String) → IsWord w → HasNoSpace w
HasNoSpace-word String.[] h = tt
HasNoSpace-word (String.◌∷◌ c s) h = h

-- The words of joined words are these words.
pub tokens-join : (words : List String) → All IsWord words → tokens (join words) ≡ words
unfolding join tokens
tokens-join [] h = unfold scan keep_word in refl
tokens-join (w ∷ []) h = rw (scan-word w (HasNoSpace-word w h.0)) (keep-word w [] h.0)
tokens-join (w ∷ x ∷ next) h =
    rw (scan-space w (join (x ∷ next)) (HasNoSpace-word w h.0))
      (keep-word w (tokens (join (x ∷ next))) h.0 ∙ ap (◌∷◌ w) (tokens-join (x ∷ next) h.1))
