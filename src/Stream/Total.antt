-- ===== src/Stream/Total.antt =====
-- bgpstream_get_next_record returns.
use bgpstream.Base.{
  ℕ, zero, suc, ◌+◌, ◌≤◌, ◌<◌, ◌≡◌, ◌≢◌, ◌⊎◌, inl, inr, refl, sym, ap, ◌∙◌, true, false, Option,
  none, some, List, [], ◌∷◌, ◌++◌, All, arith, length, length-append, Bool-cases,
}
use bgpstream.Input
use bgpstream.Input.{
  Input, InputMgr, InputMgrStatus, empty_input_queue, non_empty_input_queue, get_queue_to_process,
}
use bgpstream.Input.Push.{IsConsistent}
use bgpstream.Input.Batch.{
  Batched, nothing, batched, IsStuck, IsTimed, timed-not_void, get_queue_to_process-Batched,
}
use bgpstream.ReaderMgr
use bgpstream.ReaderMgr.{
  Record, ReaderMgr, MgrStatus, empty, non_empty, Dumps, mgr_add, sorted_insert, insert_readers,
  insert_loop, create_readers,
}
use bgpstream.ReaderMgr.Order
use bgpstream.ReaderMgr.Consistent.{mgr_add-IsConsistent, get_next_record-some}
use bgpstream.DataSource.{Results, failed, count, update_input_queue}
use bgpstream.DataSource.Updates.{IsFine, IsTimely, IsCalm, weight, update-IsUpdated}
use bgpstream.Stream.{is_on}
use bgpstream.Stream.Next.{
  Session, Step, ready, no_data, failure, query_loop, process, fill_loop, after_fill, Returned,
  get_next_record, record_clear,
}

-- A session without live mode: its inputs span some time within an int, and so do those to come.
pub record IsGood (bs : Session) : Type 0 where
  pub fine : IsFine bs.input_mgr
  pub later : All IsTimely bs.answers
  pub readers : Order.IsConsistent bs.reader_mgr.status bs.reader_mgr.reader_queue
  pub offline : bs.blocking ≡ false

-- The work that is left: the inputs in the queue, and the answers and inputs to come.
abbrev pub total : Session → ℕ
total bs = length bs.input_mgr.queue + weight bs.answers

-- What the inner loop comes to.
unfoldable IsQueried : Session → Step → Type 0
IsQueried bs (ready bs') =
    IsGood bs'
    × (Input.is_empty bs'.input_mgr ≡ false)
    × (total bs' ≤ total bs)
    × (All IsCalm bs.answers → All IsCalm bs'.answers)
IsQueried bs (no_data bs') =
    (Input.is_empty bs'.input_mgr ≡ true) × (bs'.reader_mgr ≡ bs.reader_mgr)
IsQueried bs (failure bs') = All IsCalm bs.answers → ⊥

-- The three results of an update.
results_cases : (r : Results) → (r ≡ failed) ⊎ ((r ≡ count 0) ⊎ ((k : ℕ) × (r ≡ count (suc k))))
results_cases failed = inl refl
results_cases (count zero) = inr (inl refl)
results_cases (count (suc k)) = inr (inr (k, refl))

suc_ne : (k : ℕ) → count (suc k) ≢ count 0
suc_ne k e = absurd (cc e)

-- What holds of a later session holds of the one before.
IsQueried-earlier :
    (bs bs' : Session) (step : Step)
    → total bs' ≤ total bs
    → (All IsCalm bs.answers → All IsCalm bs'.answers)
    → bs'.reader_mgr ≡ bs.reader_mgr
    → IsQueried bs' step
    → IsQueried bs step
unfolding IsQueried
IsQueried-earlier bs bs' (ready last) p c e (g, there, q, d) = (g, there, omega arith, λ x. d (c x))
IsQueried-earlier bs bs' (no_data last) p c e (gone, f) = (gone, f ∙ e)
IsQueried-earlier bs bs' (failure last) p c e h = λ x. h (c x)

query_loop-IsQueried :
    (n : ℕ) (bs : Session)
    → IsGood bs
    → total bs < n
    → (step : Step) × (query_loop n bs ≡ some step) × IsQueried bs step
unfolding query_loop
query_loop-IsQueried zero bs g p = absurd (omega arith)
query_loop-IsQueried (suc n) bs g p = elim (Bool-cases (Input.is_empty bs.input_mgr)) [
  | inr there ↦ rw there (ready bs, refl, unfold IsQueried in (g, there, omega arith, λ c. c))
  | inl gone ↦
      let (u, update, i) = update-IsUpdated bs.input_mgr bs.answers g.fine g.later in
      let bs' : Session = record bs { answers = u.answers; input_mgr = u.input_mgr } in
      let e : update_input_queue bs.blocking bs.input_mgr bs.answers ≡ some u =
        ap (λ b. update_input_queue b bs.input_mgr bs.answers) g.offline ∙ update in
      elim (results_cases u.result) [
        | inl error ↦
            rw (gone, e, error)
              (failure bs', refl, unfold IsQueried in λ c. absurd ((i.calm c).0 error))
        | inr (inl nothing_new) ↦
            rw (gone, e, nothing_new)
              (
                no_data bs',
                refl,
                unfold IsQueried in (ap Input.is_empty (i.same nothing_new) ∙ gone, refl),
              )
        | inr (inr (k, some_new)) ↦
            let good : IsGood bs' = record {
              fine = i.fine;
              later = i.later;
              readers = g.readers;
              offline = g.offline;
            } in
            let less = i.less (λ z. suc_ne k (sym some_new ∙ z)) in
            let (step, found, q) = query_loop-IsQueried n bs' good (omega (arith, less, p)) in
            rw (gone, e, some_new)
              (step, found, IsQueried-earlier bs bs' step i.size (λ c. (i.calm c).1) refl q)
      ]
]

All-right : (xs ys : List Input) → All IsTimed (xs ++ ys) → All IsTimed ys
All-right [] ys h = h
All-right (x ∷ xs) ys h = All-right xs ys h.1

stuck_at :
    (status : InputMgrStatus) (queue : List Input)
    → IsConsistent status queue
    → All IsTimed queue
    → IsStuck queue
    → Input.is_empty (record { queue = queue; status = status }) ≡ true
unfolding IsConsistent Input.is_empty
stuck_at empty_input_queue queue c t s = refl
stuck_at non_empty_input_queue [] c t s = absurd c
stuck_at non_empty_input_queue (head ∷ next) c t s = absurd (cc (s, timed-not_void head t.0))

stuck_empty : (mgr : InputMgr) → IsFine mgr → IsStuck mgr.queue → Input.is_empty mgr ≡ true
stuck_empty mgr f s = stuck_at mgr.status mgr.queue f.valid.consistent f.timed s

-- The inputs of a queue that is not empty are fewer behind get_queue_to_process.
batch_less :
    (mgr : InputMgr) (result : Option (List Input)) (mgr' : InputMgr)
    → IsFine mgr
    → Input.is_empty mgr ≡ false
    → Batched mgr result mgr'
    → IsFine mgr' × (length mgr'.queue < length mgr.queue)
batch_less mgr _ _ f e (nothing stuck) = absurd (cc (e, stuck_empty mgr f stuck))
batch_less mgr _ mgr' f e (batched head batch _ spans b) =
    let split = b.split in
    let size = length-append batch mgr'.queue in
    (
      record { valid = b.valid; timed = All-right batch mgr'.queue (rw split at f.timed) },
      rw (split, size, b.starts) (omega arith),
    )

process-IsGood :
    (dumps : Dumps) (bs : Session)
    → IsGood bs
    → Input.is_empty bs.input_mgr ≡ false
    → IsGood (process dumps bs)
      × (total (process dumps bs) < total bs)
      × ((process dumps bs).answers ≡ bs.answers)
unfolding process
process-IsGood dumps bs g e =
    let (fine, less) =
      batch_less bs.input_mgr _ _ g.fine e
        (get_queue_to_process-Batched bs.input_mgr g.fine.valid) in
    (
      record {
        fine = fine;
        later = g.later;
        readers = mgr_add-IsConsistent dumps bs.reader_mgr _ bs.filter_mgr g.readers;
        offline = g.offline;
      },
      omega (arith, less),
      refl,
    )

-- What the outer loop comes to.
unfoldable IsFilled : Session → Step → Type 0
IsFilled bs (ready bs') = IsGood bs' × (ReaderMgr.is_empty bs'.reader_mgr ≡ false)
IsFilled bs (no_data bs') =
    (Input.is_empty bs'.input_mgr ≡ true) × (ReaderMgr.is_empty bs'.reader_mgr ≡ true)
IsFilled bs (failure bs') = All IsCalm bs.answers → ⊥

-- The outer loop behind a turn of the inner one.
IsFilled-earlier :
    (bs bs' : Session) (step : Step)
    → (All IsCalm bs.answers → All IsCalm bs'.answers)
    → IsFilled bs' step
    → IsFilled bs step
unfolding IsFilled
IsFilled-earlier bs bs' (ready last) c h = h
IsFilled-earlier bs bs' (no_data last) c h = h
IsFilled-earlier bs bs' (failure last) c h = λ x. h (c x)

module _ (n : ℕ) (dumps : Dumps) (bs : Session) (p : total bs < suc n)
    (gone : ReaderMgr.is_empty bs.reader_mgr ≡ true)
    (rest : (bs' : Session)
      → IsGood bs'
      → total bs' < n
      → (step : Step) × (fill_loop n dumps bs' ≡ some step) × IsFilled bs' step) where
  queried_step :
      (step : Step)
      → query_loop (suc n) bs ≡ some step
      → IsQueried bs step
      → (last : Step) × (fill_loop (suc n) dumps bs ≡ some last) × IsFilled bs last
  unfolding fill_loop IsQueried
  queried_step (failure bs') e q = rw (gone, fill_loop, e) (failure bs', refl, unfold IsFilled in q)
  queried_step (no_data bs') e q =
      rw (gone, fill_loop, e)
        (no_data bs', refl, unfold IsFilled in (q.0, ap ReaderMgr.is_empty q.1 ∙ gone))
  queried_step (ready bs') e (g, there, less, calm) =
      let (g', less', same) = process-IsGood dumps bs' g there in
      let (last, found, f) = rest (process dumps bs') g' (omega (arith, less, less')) in
      rw (gone, fill_loop, e)
        (last, found, IsFilled-earlier bs (process dumps bs') last (λ c. rw same (calm c)) f)

fill_loop-IsFilled :
    (n : ℕ) (dumps : Dumps) (bs : Session)
    → IsGood bs
    → total bs < n
    → (step : Step) × (fill_loop n dumps bs ≡ some step) × IsFilled bs step
unfolding fill_loop
fill_loop-IsFilled zero dumps bs g p = absurd (omega arith)
fill_loop-IsFilled (suc n) dumps bs g p = elim (Bool-cases (ReaderMgr.is_empty bs.reader_mgr)) [
  | inr there ↦ rw there (ready bs, refl, unfold IsFilled in (g, there))
  | inl gone ↦
      let (step, e, q) = query_loop-IsQueried (suc n) bs g p in
      queried_step n dumps bs p gone (fill_loop-IsFilled n dumps) step e q
]

-- The call returns: a record, or 0 once nothing is left to read, or -1 by an error of the source.
abbrev pub Ends : Session → Returned → Type 0
Ends bs r =
    (r.code ≡ some 1)
    ⊎ (((r.code ≡ some 0)
          × (Input.is_empty r.session.input_mgr ≡ true)
          × (ReaderMgr.is_empty r.session.reader_mgr ≡ true))
        ⊎ ((r.code ≡ none) × (All IsCalm bs.answers → ⊥)))

after_fill-Ends :
    (bs : Session) (rec : Record) (step : Step)
    → IsFilled bs step
    → (r : Returned) × (after_fill rec step ≡ some r) × Ends bs r
unfolding after_fill IsFilled
after_fill-Ends bs rec (failure last) h = (_, refl, inr (inr (refl, h)))
after_fill-Ends bs rec (no_data last) h = (_, refl, inr (inl (refl, h.0, h.1)))
after_fill-Ends bs rec (ready last) (g, there) =
    let (next, e, one) = get_next_record-some last.reader_mgr rec last.filter_mgr g.readers there in
    rw (after_fill, e) (_, refl, inl (ap some one))

-- get_next_record on a stream that is on and not in live mode ends, if all inputs of the queue and of the
-- answers to come are RIB or updates files that span some time and end before 2 ^ 31, the bound of an
-- int, within more turns than there are inputs and answers: it returns 1 with a record; or 0, and then
-- the input queue and the reader manager are empty; or -1, and then one of the answers is an error.
pub get_next_record-Ends :
    (fuel : ℕ) (dumps : Dumps) (bs : Session) (rec : Record)
    → IsGood bs
    → is_on bs.status ≡ true
    → total bs < fuel
    → (r : Returned) × (get_next_record fuel dumps bs rec ≡ some r) × Ends bs r
unfolding get_next_record
get_next_record-Ends fuel dumps bs rec g on p =
    let (step, e, f) = fill_loop-IsFilled fuel dumps bs g p in
    rw (on, e) (after_fill-Ends bs (record_clear rec) step f)
