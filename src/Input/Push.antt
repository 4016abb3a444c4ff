-- ===== src/Input/Push.antt =====
-- bgpstream_input_mgr_push_sorted_input on a manager.
use bgpstream.Base.{◌≡◌, refl, Bool, true, false, not, List, [], ◌∷◌, ◌++◌}
use bgpstream.Input.{
  Input, InputMgr, InputMgrStatus, empty_input_queue, non_empty_input_queue, push_sorted_input,
}
use bgpstream.Input.Queue.{IsQueue, any_same, IsInserted, push_loop_lem, found, entered}

unfoldable pub IsConsistent : InputMgrStatus → List Input → Type 0
IsConsistent empty_input_queue [] = Unit
IsConsistent non_empty_input_queue (a ∷ next) = Unit
IsConsistent _ _ = ⊥

pub record IsValid (mgr : InputMgr) : Type 0 where
  pub consistent : IsConsistent mgr.status mgr.queue
  pub ordered : IsQueue mgr.queue

-- What push_sorted_input leaves: the manager, and whether it returned 1.
pub record IsPushed (input : Input) (mgr mgr' : InputMgr) (added : Bool) : Type 0 where
  pub answer : added ≡ not (any_same input mgr.queue)
  pub valid : IsValid mgr'
  pub refused : added ≡ false → mgr' ≡ mgr
  pub inserted : added ≡ true → IsInserted input mgr.queue mgr'.queue

inserted-cons :
    (input : Input) (queue queue' : List Input)
    → IsInserted input queue queue'
    → IsConsistent non_empty_input_queue queue'
unfolding IsConsistent
inserted-cons input queue queue' i =
    elim i.front
        as (λ front.
          queue' ≡ front ++ (input ∷ i.back) → IsConsistent non_empty_input_queue queue') [
            | [] ↦ λ e. rw e tt
            | a ∷ front ↦ λ e. rw e tt
          ]
      i.new

push_at :
    (input : Input) (queue : List Input) (status : InputMgrStatus)
    → IsConsistent status queue
    → IsQueue queue
    → let (mgr', added) = push_sorted_input (record { queue = queue; status = status }) input in
      IsPushed input (record { queue = queue; status = status }) mgr' added
unfolding push_sorted_input IsConsistent
push_at input [] empty_input_queue c q = record {
  answer = unfold any_same in refl;
  valid = record { consistent = tt; ordered = (tt, tt) };
  refused = λ e. absurd (cc e);
  inserted = λ _. record { front = []; back = []; old = refl; new = refl };
}
push_at input (a ∷ queue) empty_input_queue c q = absurd c
push_at input [] non_empty_input_queue c q = absurd c
push_at input (a ∷ queue) non_empty_input_queue c q = elim (push_loop_lem input (a ∷ queue) q) [
  | found same e ↦
      rw (e, push_sorted_input)
        (record {
          answer = rw same refl;
          valid = record { consistent = tt; ordered = q };
          refused = λ _. refl;
          inserted = λ e. absurd (cc e);
        })
  | entered same queue' e q' i ↦
      rw (e, push_sorted_input)
        (record {
          answer = rw same refl;
          valid = record { consistent = inserted-cons input (a ∷ queue) queue' i; ordered = q' };
          refused = λ e. absurd (cc e);
          inserted = λ _. i;
        })
]

-- On a valid manager push_sorted_input returns 1 exactly when no queued input has the time, the
-- collector, the project and the type of the new one. It then puts the new one at one place of the
-- queue and changes nothing else; otherwise it leaves the manager as it was. The manager stays valid:
-- in the order of time, RIBs in front of the updates of their time, and no input twice.
pub push_sorted_input-IsPushed :
    (mgr : InputMgr) (input : Input)
    → IsValid mgr
    → let (mgr', added) = push_sorted_input mgr input in IsPushed input mgr mgr' added
push_sorted_input-IsPushed mgr input v = push_at input mgr.queue mgr.status v.consistent v.ordered
