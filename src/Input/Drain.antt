-- ===== src/Input/Drain.antt =====
-- Calls of bgpstream_input_mgr_get_queue_to_process in a row: they hand out the whole queue.
use bgpstream.Base.{
  ℕ, zero, suc, ◌+◌, ◌≤◌, ◌≡◌, refl, sym, ap, ◌∙◌, true, Option, none, some, List, [], ◌∷◌, ◌++◌,
  All, arith, length, length-append,
}
use bgpstream.Input.{
  Input, InputMgr, InputMgrStatus, empty_input_queue, non_empty_input_queue, get_queue_to_process,
  is_empty,
}
use bgpstream.Input.Push.{IsValid, IsConsistent}
use bgpstream.Input.Batch.{
  Batched, nothing, batched, IsStuck, IsTimed, timed-not_void, get_queue_to_process-Batched,
}

-- The inputs handed out by at most n calls, up to the first that returns NULL, and the manager then.
unfoldable pub drain : ℕ → InputMgr → List Input × InputMgr
drain zero mgr = ([], mgr)
drain (suc n) mgr = elim (get_queue_to_process mgr).0 [
  | none ↦ ([], mgr)
  | some batch ↦ let rest = drain n (get_queue_to_process mgr).1 in (batch ++ rest.0, rest.1)
]

-- What is to be shown of the result: the queue is handed out and the manager empty.
abbrev IsDrained : List Input → List Input × InputMgr → Type 0
IsDrained queue result = (result.0 ≡ queue) × (is_empty result.1 ≡ true)

empty_lem :
    (status : InputMgrStatus)
    → IsConsistent status []
    → is_empty (record { queue = []; status = status }) ≡ true
unfolding IsConsistent is_empty
empty_lem empty_input_queue c = refl
empty_lem non_empty_input_queue c = absurd c

not_stuck : (queue : List Input) → All IsTimed queue → IsStuck queue → queue ≡ []
not_stuck [] t s = refl
not_stuck (head ∷ next) t s = absurd (cc (s, timed-not_void head t.0))

All-append-right : (xs ys : List Input) → All IsTimed (xs ++ ys) → All IsTimed ys
All-append-right [] ys h = h
All-append-right (x ∷ xs) ys h = All-append-right xs ys h.1

stop :
    (queue : List Input) (status : InputMgrStatus)
    → IsValid (record { queue = queue; status = status })
    → All IsTimed queue
    → IsStuck queue
    → IsDrained queue ([], record { queue = queue; status = status })
stop [] status v t s = (refl, empty_lem status v.consistent)
stop (head ∷ next) status v t s = absurd (cc (s, timed-not_void head t.0))

-- A manager is drained in steps.
drain_step :
    (n : ℕ) (mgr : InputMgr)
    → ((mgr' : InputMgr)
        → IsValid mgr'
        → All IsTimed mgr'.queue
        → length mgr'.queue ≤ n
        → IsDrained mgr'.queue (drain n mgr'))
    → IsValid mgr
    → All IsTimed mgr.queue
    → length mgr.queue ≤ suc n
    → (result : Option (List Input)) (mgr' : InputMgr) → (get_queue_to_process mgr).0 ≡ result
    → (get_queue_to_process mgr).1 ≡ mgr'
    → Batched mgr result mgr'
    → IsDrained mgr.queue (drain (suc n) mgr)
unfolding drain
drain_step n mgr ih v t p _ _ e f (nothing s) = rw (e, drain) (stop mgr.queue mgr.status v t s)
drain_step n mgr ih v t p _ _ e f (batched head batch mgr' d b) =
    let size : length mgr.queue ≡ length batch + length mgr'.queue =
      ap length b.split ∙ length-append batch mgr'.queue in
    let one : length batch ≡ suc (length b.later) = ap length b.starts in
    let (all, ends) =
      ih mgr' b.valid (All-append-right batch mgr'.queue (rw b.split at t))
        (omega (arith, size, one)) in
    rw (e, drain) (rw f (ap (λ l. batch ++ l) all ∙ sym b.split, ends))

short-IsStuck : (queue : List Input) → length queue ≤ 0 → IsStuck queue
short-IsStuck [] p = tt
short-IsStuck (head ∷ next) p = absurd (omega arith)

-- If every queued input of a valid manager is a RIB or updates file that spans some time and ends
-- before 2 ^ 31, the bound of an int, then as many calls as there are inputs hand out the whole queue, in its order, and leave it empty.
pub drain-IsDrained :
    (n : ℕ) (mgr : InputMgr)
    → IsValid mgr
    → All IsTimed mgr.queue
    → length mgr.queue ≤ n
    → ((drain n mgr).0 ≡ mgr.queue) × (is_empty (drain n mgr).1 ≡ true)
unfolding drain
drain-IsDrained zero mgr v t p = stop mgr.queue mgr.status v t (short-IsStuck mgr.queue p)
drain-IsDrained (suc n) mgr v t p =
    drain_step n mgr (drain-IsDrained n) v t p _ _ refl refl (get_queue_to_process-Batched mgr v)
