-- ===== src/Elem/Expressions.antt =====
-- lib/bgpstream_record.c: the AS path expressions of bgpstream_elem_check_filters.
use bgpstream.Base.{
  ℕ, zero, suc, ◌+◌, ◌≤◌, ◌<◌, ◌≡◌, ◌≢◌, ◌⊎◌, inl, inr, refl, sym, ap, ◌∙◌, Bool, true, false, ◌&&◌,
  not, List, [], ◌∷◌, arith, ◌==◌, if◌then◌else◌, length, take, All, Bool-cases,
}
use bgpstream.AsPath.{AsPath, seg_set, seg_confed_set, seg_confed_seq}
use bgpstream.AsPath.Memory.{Mem, Holds}
use bgpstream.AsPath.Segments.{Segment, asn, group, segments}
use bgpstream.AsPath.Print.{decimal, get_filterable}
use bgpstream.AsPath.Digits.{digits-All}
use bgpstream.AsPath.Appends.{length-take}
use bgpstream.AsPath.SegPrinted.{set_text, group_text, seg_text}
use bgpstream.AsPath.Printed.{joined, snprintf_custom_separator_lem}
use bgpstream.AsPath.Message.{All-append}
use bgpstream.Elem.Filters.{
  Elem, Regex, reg_nomatch, string_at, Counts, count_match, split_negation, aspath_loop,
  check_aspath, is_withdrawal_or_state,
}

-- What is documented of POSIX regular expressions that compile: regcomp does not return a negative
-- number, and regexec finds a match or none.
pub record IsPosix (rx : Regex) : Type 0 where
  pub compiles : (expr : List ℕ) → rx.regcomp_negative expr ≡ false
  pub decides :
      (expr text : List ℕ) → (rx.regexec expr text ≡ 0) ⊎ (rx.regexec expr text ≡ reg_nomatch)

-- An expression holds of a text if it matches, or does not after a `!`; an empty one always holds.
unfoldable pub expr_holds : Regex → List ℕ → List ℕ → Bool
expr_holds rx text [] = true
expr_holds rx text (c ∷ cs) =
    if c == b'!' then not (rx.regexec cs text == 0) else rx.regexec (c ∷ cs) text == 0

unfoldable pub all {ℓ} : {A : Type ℓ} → (A → Bool) → List A → Bool
all p [] = true
all p (x ∷ xs) = p x && all p xs

abbrev verdict : Counts → Bool
verdict n = n.positives == n.totalpositives && n.negatives == 0

-- One expression.
turn : Regex → List ℕ → ℕ → List ℕ → Counts → Counts
turn rx text c cs n =
    let (negate, expr) = split_negation (c ∷ cs) in
    let n1 : Counts = if negate then n else record n { totalpositives = n.totalpositives + 1 } in
    if rx.regexec expr text == 0 then count_match negate n1 else n1

loop-turn :
    (rx : Regex) (text : List ℕ) (c : ℕ) (cs : List ℕ) (exprs : List (List ℕ)) (n : Counts)
    → IsPosix rx
    → aspath_loop rx text ((c ∷ cs) ∷ exprs) n ≡ aspath_loop rx text exprs (turn rx text c cs n)
unfolding aspath_loop turn
loop-turn rx text c cs exprs n posix =
    let expr = (split_negation (c ∷ cs)).1 in
    let fine = posix.compiles expr in
    elim (posix.decides expr text) [
      | inl match ↦ rw (aspath_loop, fine, match) refl
      | inr other ↦ rw (aspath_loop, fine, other) refl
    ]

turn-verdict :
    (rx : Regex) (text : List ℕ) (c : ℕ) (cs : List ℕ) (n : Counts)
    → n.positives ≤ n.totalpositives
    → let n' = turn rx text c cs n in
      (n'.positives ≤ n'.totalpositives) × (verdict n' ≡ (verdict n && expr_holds rx text (c ∷ cs)))
unfolding turn expr_holds split_negation count_match
turn-verdict rx text c cs n le = elim (Bool-cases (c == b'!')) [
  | inl negated ↦ elim (Bool-cases (rx.regexec cs text == 0)) [
    | inl match ↦ rw (negated, match) (ground arith, ground arith)
    | inr other ↦ rw (negated, other) (ground arith, ground arith)
  ]
  | inr plain ↦ elim (Bool-cases (rx.regexec (c ∷ cs) text == 0)) [
    | inl match ↦ rw (plain, match) (ground arith, ground arith)
    | inr other ↦ rw (plain, other) (ground arith, ground arith)
  ]
]

and_assoc : (a b c : Bool) → ((a && b) && c) ≡ (a && (b && c))
and_assoc true b c = refl
and_assoc false b c = refl

pub and_true : (a : Bool) → (a && true) ≡ a
and_true true = refl
and_true false = refl

loop_skip :
    (rx : Regex) (text : List ℕ) (exprs : List (List ℕ)) (n : Counts)
    → aspath_loop rx text ([] ∷ exprs) n ≡ aspath_loop rx text exprs n
unfolding aspath_loop
loop_skip rx text exprs n = refl

holds_empty : (rx : Regex) (text : List ℕ) → expr_holds rx text [] ≡ true
unfolding expr_holds
holds_empty rx text = refl

-- The counters say whether all expressions hold.
pub aspath_loop_lem :
    (rx : Regex) (text : List ℕ) (exprs : List (List ℕ)) (n : Counts)
    → IsPosix rx
    → n.positives ≤ n.totalpositives
    → verdict (aspath_loop rx text exprs n) ≡ (verdict n && all (expr_holds rx text) exprs)
unfolding all
aspath_loop_lem rx text [] n posix le = unfold aspath_loop in sym (and_true (verdict n))
aspath_loop_lem rx text ([] ∷ exprs) n posix le =
    ap verdict (loop_skip rx text exprs n)
    ∙ aspath_loop_lem rx text exprs n posix le
    ∙ ap (λ b. verdict n && (b && all (expr_holds rx text) exprs)) (sym (holds_empty rx text))
aspath_loop_lem rx text ((c ∷ cs) ∷ exprs) n posix le =
    let (le', one) = turn-verdict rx text c cs n le in
    ap verdict (loop-turn rx text c cs exprs n posix)
    ∙ aspath_loop_lem rx text exprs (turn rx text c cs n) posix le'
    ∙ ap (λ b. b && all (expr_holds rx text) exprs) one
    ∙ and_assoc (verdict n) (expr_holds rx text (c ∷ cs)) (all (expr_holds rx text) exprs)

-- A text without NUL is read back from the buffer.
abbrev IsText : List ℕ → Type 0
IsText text = All (λ c. c ≢ 0) text

string_at-Holds :
    (len : ℕ) (mem : Mem) (at : ℕ) (text : List ℕ)
    → IsText text
    → Holds mem at text
    → mem (at + length text) ≡ 0
    → length text < len
    → string_at len mem at ≡ text
unfolding string_at Holds
string_at-Holds zero mem at text t h z lt = absurd (omega arith)
string_at-Holds (suc len) mem at [] t h z lt =
    let e : at + 0 ≡ at = omega arith in
    let nul : (mem at == 0) ≡ true = ground (arith, ap mem e) in rw (string_at, nul) refl
string_at-Holds (suc len) mem at (c ∷ text) (t, ts) (h, hs) z lt =
    let more : (mem at == 0) ≡ false = ground arith in
    let e : at + suc (length text) ≡ suc at + length text = omega arith in
    let next : at + 1 ≡ suc at = omega arith in
    let rest = string_at-Holds len mem (suc at) text ts hs (rw e at z) (omega arith) in
    rw (string_at, more, next, h, rest) refl

take-IsText : (k : ℕ) (text : List ℕ) → IsText text → IsText (take k text)
take-IsText zero text t = tt
take-IsText (suc k) [] t = tt
take-IsText (suc k) (c ∷ text) (t, ts) = (t, take-IsText k text ts)

decimal-IsText : (n : ℕ) → IsText (decimal n)
decimal-IsText n = digits-All (λ c. c ≢ 0) 10 n [] (λ d lt. omega arith) tt

set_text-IsText : (sep : ℕ) (ns : List ℕ) → sep ≢ 0 → IsText (set_text sep ns)
unfolding set_text
set_text-IsText sep [] s = tt
set_text-IsText sep (n ∷ []) s = decimal-IsText n
set_text-IsText sep (n ∷ m ∷ ns) s =
    All-append (λ c. c ≢ 0) (decimal n) (sep ∷ set_text sep (m ∷ ns)) (decimal-IsText n)
      (s, set_text-IsText sep (m ∷ ns) s)

group_text-IsText :
    (fchr lchr schr : ℕ) (ns : List ℕ)
    → fchr ≢ 0
    → lchr ≢ 0
    → schr ≢ 0
    → IsText (group_text fchr lchr schr ns)
unfolding group_text
group_text-IsText fchr lchr schr ns f l s =
    (f, All-append (λ c. c ≢ 0) (set_text schr ns) (lchr ∷ []) (set_text-IsText schr ns s) (l, tt))

seg_text-IsText : (s : Segment) → IsText (seg_text s)
unfolding seg_text
seg_text-IsText (asn n) = decimal-IsText n
seg_text-IsText (group kind ns) = elim (Bool-cases (kind == seg_set)) [
  | inl a ↦ rw a (group_text-IsText b'{' b'}' b',' ns (omega arith) (omega arith) (omega arith))
  | inr not_set ↦ elim (Bool-cases (kind == seg_confed_set)) [
    | inl b ↦
        rw (not_set, b)
          (group_text-IsText b'[' b']' b',' ns (omega arith) (omega arith) (omega arith))
    | inr not_confed ↦ elim (Bool-cases (kind == seg_confed_seq)) [
      | inl c ↦
          rw (not_set, not_confed, c)
            (group_text-IsText b'(' b')' b' ' ns (omega arith) (omega arith) (omega arith))
      | inr unknown ↦ rw (not_set, not_confed, unknown) tt
    ]
  ]
]

joined-IsText : (sep : ℕ) (ss : List Segment) → sep ≢ 0 → IsText (joined sep ss)
unfolding joined
joined-IsText sep [] h = tt
joined-IsText sep (s ∷ []) h = seg_text-IsText s
joined-IsText sep (s ∷ t ∷ ss) h =
    All-append (λ c. c ≢ 0) (seg_text s) (sep ∷ joined sep (t ∷ ss)) (seg_text-IsText s)
      (h, joined-IsText sep (t ∷ ss) h)

-- The text that the expressions are matched with.
unfoldable pub filterable : AsPath → List ℕ
filterable path = joined b'_' (segments path)

-- What the check of the AS path answers.
pub check_aspath_lem :
    (rx : Regex) (exprs : List (List ℕ)) (elem : Elem)
    → IsPosix rx
    → check_aspath rx exprs elem ≡ (
        not (is_withdrawal_or_state elem.elem_type)
        && (not (length (filterable elem.aspath) == 0)
            && all (expr_holds rx (take 65534 (filterable elem.aspath))) exprs))
unfolding check_aspath filterable get_filterable
check_aspath_lem rx exprs elem posix =
    let text = joined b'_' (segments elem.aspath) in
    let printed = get_filterable (λ i. 0) 0 65535 elem.aspath in
    let (size, holds, nul, _) = snprintf_custom_separator_lem (λ i. 0) 0 65535 elem.aspath b'_' in
    let (short, _) = length-take 65534 text in
    let read : string_at 65535 printed.0 0 ≡ take 65534 text =
      string_at-Holds 65535 printed.0 0 (take 65534 text)
        (take-IsText 65534 text (joined-IsText b'_' (segments elem.aspath) (omega arith))) holds
        (nul (omega arith)) (omega arith) in
    elim (Bool-cases (is_withdrawal_or_state elem.elem_type)) [
      | inl out ↦ rw out refl
      | inr there ↦ elim (Bool-cases (length text == 0)) [
        | inl nothing ↦ rw (there, size, nothing) refl
        | inr something ↦
            rw (there, size, something, read)
              (aspath_loop_lem rx (take 65534 text) exprs
                (record { positives = 0; negatives = 0; totalpositives = 0 }) posix (omega arith))
      ]
    ]
