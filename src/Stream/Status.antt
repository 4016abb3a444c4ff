-- ===== src/Stream/Status.antt =====
-- What holds of a stream whatever calls have been made.
use bgpstream.Base.{
  ℕ, ◌≤◌, ◌≡◌, ◌⊎◌, refl, ◌∙◌, inl, inr, Bool, true, false, List, [], ◌∷◌, All, arith, Bool-cases,
}
use bgpstream.Filter.{Interval, validate, valid_intervals}
use bgpstream.Stream.{
  Bgpstream, create, is_allocated, is_on, add_rib_period_filter, set_live_mode, add_interval_filter,
  start, stop,
}

-- One call of a client: of these five operations.
pub data Step : Bgpstream → Bgpstream → Type 0 where
  period_added : (bs : Bgpstream) (period : ℕ) → Step bs (add_rib_period_filter bs period)
  interval_added :
      (bs : Bgpstream) (begin_time end_time : ℕ)
      → Step bs (add_interval_filter bs begin_time end_time)
  made_live : (bs : Bgpstream) → Step bs (set_live_mode bs)
  started : (init : Bool) (bs : Bgpstream) → Step bs (start init bs).0
  stopped : (bs : Bgpstream) → Step bs (stop bs)

pub data Steps (bs : Bgpstream) : Bgpstream → Type 0 where
  none_made : Steps bs bs
  made : {bs' bs'' : Bgpstream} → Steps bs bs' → Step bs' bs'' → Steps bs bs''

-- An interval that ends, if it does, no earlier than it begins.
pub record IsInterval (tif : Interval) : Type 0 where
  pub in_order : (tif.end_time ≡ 0) ⊎ (tif.begin_time ≤ tif.end_time)

valid_intervals_lem : (l : List Interval) → valid_intervals l ≡ true → All IsInterval l
unfolding valid_intervals
valid_intervals_lem [] e = tt
valid_intervals_lem (tif ∷ next) e =
    (record { in_order = ground arith }, valid_intervals_lem next (ground arith))

-- The intervals were checked before the stream left its first status.
pub IsChecked : Bgpstream → Type 0
IsChecked bs = is_allocated bs.status ≡ false → validate bs.filter_mgr ≡ true

Step-IsChecked : {bs bs' : Bgpstream} → Step bs bs' → IsChecked bs → IsChecked bs'
unfolding IsChecked
Step-IsChecked (period_added bs period) h = unfold add_rib_period_filter in ground arith
Step-IsChecked (interval_added bs b e) h = unfold add_interval_filter set_live_mode in ground arith
Step-IsChecked (made_live bs) h = unfold set_live_mode in ground arith
Step-IsChecked (started init bs) h = unfold start is_allocated in ground arith
Step-IsChecked (stopped bs) h = unfold stop is_on is_allocated in ground arith

Steps-IsChecked : {bs bs' : Bgpstream} → Steps bs bs' → IsChecked bs → IsChecked bs'
Steps-IsChecked none_made h = h
Steps-IsChecked (made steps last) h = Step-IsChecked last (Steps-IsChecked steps h)

-- Whatever of these calls have been made of a new stream: once it is on or off, each of its time intervals is
-- endless or ends no earlier than it begins.
pub started-IsInterval :
    (bs : Bgpstream)
    → Steps create bs
    → is_allocated bs.status ≡ false
    → All IsInterval bs.filter_mgr.time_intervals
unfolding IsChecked
started-IsInterval bs steps e =
    valid_intervals_lem bs.filter_mgr.time_intervals
      (unfold validate in Steps-IsChecked steps (λ a. absurd (unfold is_allocated in cc a)) e)

-- What calls leave of a stream that is on or off.
pub record IsFrozen (bs bs' : Bgpstream) : Type 0 where
  pub filters : bs'.filter_mgr ≡ bs.filter_mgr
  pub mode : bs'.blocking ≡ bs.blocking
  pub not_again : is_allocated bs'.status ≡ false
  pub stays_off : is_on bs.status ≡ false → is_on bs'.status ≡ false

frozen : (bs : Bgpstream) → is_allocated bs.status ≡ false → IsFrozen bs bs
frozen bs h = record { filters = refl; mode = refl; not_again = h; stays_off = λ e. e }

stop-IsFrozen : (bs : Bgpstream) → is_allocated bs.status ≡ false → IsFrozen bs (stop bs)
unfolding stop is_allocated
stop-IsFrozen bs h = elim (Bool-cases (is_on bs.status)) [
  | inl running ↦ rw running (record {
    filters = refl;
    mode = refl;
    not_again = refl;
    stays_off = λ e. unfold is_on in refl;
  })
  | inr halted ↦ rw halted (frozen bs h)
]

Step-IsFrozen :
    {bs bs' : Bgpstream} → Step bs bs' → is_allocated bs.status ≡ false → IsFrozen bs bs'
unfolding add_rib_period_filter add_interval_filter set_live_mode start
Step-IsFrozen (period_added bs period) h = rw h (frozen bs h)
Step-IsFrozen (interval_added bs b e) h = rw h (frozen bs h)
Step-IsFrozen (made_live bs) h = rw h (frozen bs h)
Step-IsFrozen (started init bs) h = rw h (frozen bs h)
Step-IsFrozen (stopped bs) h = stop-IsFrozen bs h

-- Once a stream is on or off, none of these calls changes its filters or its mode or makes it
-- configurable again, and once it is off none turns it on.
pub Steps-IsFrozen :
    (bs bs' : Bgpstream) → Steps bs bs' → is_allocated bs.status ≡ false → IsFrozen bs bs'
Steps-IsFrozen bs _ none_made h = frozen bs h
Steps-IsFrozen bs _ (made steps last) h =
    let before = Steps-IsFrozen bs _ steps h in
    let after = Step-IsFrozen last before.not_again in
    record {
      filters = after.filters ∙ before.filters;
      mode = after.mode ∙ before.mode;
      not_again = after.not_again;
      stays_off = λ e. after.stays_off (before.stays_off e);
    }
