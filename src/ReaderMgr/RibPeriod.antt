-- ===== src/ReaderMgr/RibPeriod.antt =====
-- bgpstream_reader_period_check: the RIBs of a collector that pass are a period apart.
use Prim.Native.String.{String}
use bgpstream.Base.Text.{str_eq, dotted, str_eq_iff}
use bgpstream.Base.{
  ℕ, ◌+◌, ◌%◌, ◌^◌, ◌≤◌, ◌<◌, ◌≡◌, ◌⊎◌, inl, inr, refl, sym, ap, ◌∙◌, Bool, true, false, ◌&&◌,
  Option, none, some, List, [], ◌∷◌, All, arith, ltb, ◌==◌, if◌then◌else◌, Bool-cases, Option-cases,
}
use bgpstream.Filter.{FilterMgr}
use bgpstream.Input.{Input}
use bgpstream.ReaderMgr.{note_time, period_check}

abbrev pub key_of : Input → String
key_of input = dotted input.fileproject input.filecollector

-- A RIB of the collector that a key names.
unfoldable pub is_rib_of : String → Input → Bool
is_rib_of key input = str_eq input.filetype "ribs" && str_eq key (key_of input)

-- The times of the RIBs of a collector that pass the check, of inputs checked one after another.
unfoldable pub passed_times : String → List Input → FilterMgr → List ℕ
passed_times key [] mgr = []
passed_times key (input ∷ next) mgr =
    let rest = passed_times key next (period_check input mgr).1 in
    if (period_check input mgr).0 && is_rib_of key input then input.epoch_filetime ∷ rest else rest

-- Behind the last time that passed, each is the same or at least a period later.
unfoldable pub IsSpaced : ℕ → Option ℕ → List ℕ → Type 0
IsSpaced period last [] = Unit
IsSpaced period none (time ∷ times) = IsSpaced period (some time) times
IsSpaced period (some last) (time ∷ times) =
    ((time ≡ last) ⊎ (last + period ≤ time)) × IsSpaced period (some time) times

-- What a check does for the collector of a key.
data Checked (period : ℕ) (input : Input) (last last' : Option ℕ) : Bool → Type 0 where
  skipped : last' ≡ last → Checked period input last last' false
  first : last ≡ none → last' ≡ some input.epoch_filetime → Checked period input last last' true
  again :
      (time : ℕ)
      → last ≡ some time
      → last' ≡ some input.epoch_filetime
      → (input.epoch_filetime ≡ time) ⊎ (time + period ≤ input.epoch_filetime)
      → Checked period input last last' true

same_period :
    (input : Input) (mgr : FilterMgr) → (period_check input mgr).1.rib_period ≡ mgr.rib_period
unfolding period_check note_time
same_period input mgr = ground arith

module _ (input : Input) (mgr : FilterMgr) (on : 0 < mgr.rib_period) where
  rib-Checked :
      str_eq input.filetype "ribs" ≡ true
      → ((last : ℕ)
          → mgr.last_processed_ts (key_of input) ≡ some last
          → last + mgr.rib_period < 2 ^ 32)
      → Checked mgr.rib_period input
          (mgr.last_processed_ts (key_of input))
          ((period_check input mgr).1.last_processed_ts (key_of input))
          (period_check input mgr).0
  unfolding period_check note_time
  rib-Checked rib small =
      let period_on : (mgr.rib_period == 0) ≡ false = ground arith in
      let self : str_eq (key_of input) (key_of input) ≡ true =
        (str_eq_iff (key_of input) (key_of input)).1 refl in
      elim (Option-cases (mgr.last_processed_ts (key_of input))) [
        | inl e ↦ rw (period_on, rib, e, self) (first refl refl)
        | inr (last, e) ↦ elim (Bool-cases (input.epoch_filetime == last)) [
          | inl same ↦
              let t : last ≡ input.epoch_filetime = ground arith in
              rw (period_on, rib, e, same) (again last refl (e ∙ ap some t) (inl (sym t)))
          | inr differs ↦
              elim (Bool-cases (ltb input.epoch_filetime ((last + mgr.rib_period) % 2 ^ 32))) [
                | inl early ↦ rw (period_on, rib, e, differs, early) (skipped e)
                | inr later ↦
                    let fits = small last e in
                    rw (period_on, rib, e, differs, later, self)
                      (again last refl refl (inr (ground arith)))
              ]
        ]
      ]

  other-kept :
      (key : String)
      → is_rib_of key input ≡ false
      → (period_check input mgr).1.last_processed_ts key ≡ mgr.last_processed_ts key
  unfolding period_check note_time is_rib_of
  other-kept key other = ground arith

-- The times of the inputs leave room for a period below 2 ^ 32.
abbrev pub AreSmall : ℕ → List Input → Type 0
AreSmall period inputs = All (λ (i : Input). i.epoch_filetime + period < 2 ^ 32) inputs

-- The last time, if there is one, leaves room too.
abbrev LastSmall : ℕ → Option ℕ → Type 0
LastSmall period last = (time : ℕ) → last ≡ some time → time + period < 2 ^ 32

some-eq : (a b : ℕ) → some a ≡ some b → a ≡ b
some-eq a b e = cc e

IsSpaced-step :
    (period : ℕ) (input : Input) (last last' : Option ℕ) (pass : Bool) (times : List ℕ)
    → input.epoch_filetime + period < 2 ^ 32
    → LastSmall period last
    → Checked period input last last' pass
    → (LastSmall period last' → IsSpaced period last' times)
    → IsSpaced period last (if pass then input.epoch_filetime ∷ times else times)
unfolding IsSpaced
IsSpaced-step period input last last' _ times p small (skipped e) ih = rw e at (ih (rw e small))
IsSpaced-step period input last last' _ times p small (first e f) ih =
    rw e (rw f at (ih (λ t g. ground (arith, f, g))))
IsSpaced-step period input last last' _ times p small (again time e f spaced) ih =
    rw e (spaced, rw f at (ih (λ t g. ground (arith, f, g))))

and_true : (b : Bool) → (b && true) ≡ b
and_true b = ground arith

and_false : (b : Bool) → (b && false) ≡ false
and_false b = ground arith

is_rib_of-parts :
    (key : String) (input : Input)
    → is_rib_of key input ≡ true
    → (str_eq input.filetype "ribs" ≡ true) × (key ≡ key_of input)
unfolding is_rib_of
is_rib_of-parts key input e = (ground arith, (str_eq_iff key (key_of input)).0 (ground arith))

passed-IsSpaced :
    (period : ℕ) (key : String) (inputs : List Input) (mgr : FilterMgr)
    → 0 < period
    → mgr.rib_period ≡ period
    → AreSmall period inputs
    → LastSmall period (mgr.last_processed_ts key)
    → IsSpaced period (mgr.last_processed_ts key) (passed_times key inputs mgr)
unfolding passed_times
passed-IsSpaced period key [] mgr on e h small = unfold IsSpaced in tt
passed-IsSpaced period key (input ∷ next) mgr on e h small =
    let rest = λ (s : LastSmall period ((period_check input mgr).1.last_processed_ts key)).
      passed-IsSpaced period key next (period_check input mgr).1 on (same_period input mgr ∙ e) h.1
        s in
    elim (Bool-cases (is_rib_of key input)) [
      | inl mine ↦
          let (rib, same) = is_rib_of-parts key input mine in
          let checked : Checked period input (mgr.last_processed_ts key)
              ((period_check input mgr).1.last_processed_ts key) (period_check input mgr).0 =
            rw (same, ← e) (rib-Checked input mgr (omega arith) rib (rw (same, ← e) at small)) in
          rw (mine, and_true (period_check input mgr).0)
            (IsSpaced-step period input _ _ (period_check input mgr).0 _ h.0 small checked rest)
      | inr other ↦
          let kept = other-kept input mgr (omega arith) key other in
          rw (other, and_false (period_check input mgr).0) (rw kept at (rest (rw kept small)))
    ]

-- With a RIB period set and no time yet kept for a collector, of inputs that are checked one after
-- another the RIBs of the collector that pass have times each the same as the one before or at least
-- a period later, if no time plus the period reaches 2 ^ 32.
pub period_check-IsSpaced :
    (key : String) (inputs : List Input) (mgr : FilterMgr)
    → 0 < mgr.rib_period
    → AreSmall mgr.rib_period inputs
    → mgr.last_processed_ts key ≡ none
    → IsSpaced mgr.rib_period none (passed_times key inputs mgr)
period_check-IsSpaced key inputs mgr on h e =
    rw e at (passed-IsSpaced mgr.rib_period key inputs mgr on refl h (λ t g. absurd (cc (e, g))))
