-- ===== src/DataSource/Updates.antt =====
-- What an update of the input queue comes to.
use bgpstream.Base.{
  ℕ, zero, suc, ◌+◌, ◌≤◌, ◌<◌, ◌≡◌, ◌≢◌, inl, inr, refl, ap, ◌∙◌, Bool, false, Option, some, List,
  [], ◌∷◌, ◌++◌, All, arith, length, length-append, if◌then◌else◌, Bool-cases,
}
use bgpstream.Input.{Input, InputMgr, push_sorted_input}
use bgpstream.Input.Push.{IsValid, IsPushed, push_sorted_input-IsPushed}
use bgpstream.Input.Batch.{IsTimed}
use bgpstream.DataSource.{
  min_wait, Answer, error, pushed, Results, failed, count, push_all, Updated, back_off, update_loop,
  update_input_queue,
}

-- A queue of inputs that span some time, and what an answer adds to it.
pub record IsFine (mgr : InputMgr) : Type 0 where
  pub valid : IsValid mgr
  pub timed : All IsTimed mgr.queue

unfoldable pub IsTimely : Answer → Type 0
IsTimely error = Unit
IsTimely (pushed inputs) = All IsTimed inputs

unfoldable pub IsCalm : Answer → Type 0
IsCalm error = ⊥
IsCalm (pushed inputs) = Unit

unfoldable pub weight : List Answer → ℕ
weight [] = 0
weight (error ∷ answers) = 1 + weight answers
weight (pushed inputs ∷ answers) = 1 + length inputs + weight answers

All-insert :
    (front back : List Input) (x : Input)
    → IsTimed x
    → All IsTimed (front ++ back)
    → All IsTimed (front ++ (x ∷ back))
All-insert [] back x t h = (t, h)
All-insert (y ∷ front) back x t (u, h) = (u, All-insert front back x t h)

push-IsFine :
    (mgr mgr' : InputMgr) (added : Bool) (input : Input)
    → IsFine mgr
    → IsTimed input
    → IsPushed input mgr mgr' added
    → IsFine mgr' × (length mgr'.queue ≤ 1 + length mgr.queue)
push-IsFine mgr mgr' added input f t p = elim (Bool-cases added) [
  | inr refused ↦ rw (p.refused refused) (f, omega arith)
  | inl entered ↦
      let i = p.inserted entered in
      let size = length-append i.front i.back in
      let size' = length-append i.front (input ∷ i.back) in
      (
        record {
          valid = p.valid;
          timed = rw i.new (All-insert i.front i.back input t (rw i.old at f.timed));
        },
        rw (i.new, i.old, size, size') (omega arith),
      )
]

-- What the pushes of one answer come to; a queue to which none is added stays as it is.
pub push_all-IsFine :
    (mgr : InputMgr) (inputs : List Input)
    → IsFine mgr
    → All IsTimed inputs
    → let (mgr', n) = push_all mgr inputs in
      IsFine mgr' × (length mgr'.queue ≤ length inputs + length mgr.queue) × (n ≡ 0 → mgr' ≡ mgr)
unfolding push_all
push_all-IsFine mgr [] f t = (f, omega arith, λ e. refl)
push_all-IsFine mgr (input ∷ next) f (t, ts) =
    let (mgr', added) = push_sorted_input mgr input in
    let p = push_sorted_input-IsPushed mgr input f.valid in
    let (f', size) = push-IsFine mgr mgr' added input f t p in
    let (f'', size', same) = push_all-IsFine mgr' next f' ts in
    (
      f'',
      omega (arith, size, size'),
      λ e. elim (Bool-cases added) [
        | inl entered ↦ absurd (omega (arith, rw entered at e))
        | inr refused ↦ same (rw refused at e) ∙ p.refused refused
      ],
    )

-- What an update comes to: the answers that it takes weigh at least as much as the inputs that it queues,
-- and more if there are some; without any, the queue is as it was; it fails by an error alone.
pub record IsUpdated (mgr : InputMgr) (answers : List Answer) (u : Updated) : Type 0 where
  pub fine : IsFine u.input_mgr
  pub later : All IsTimely u.answers
  pub size : length u.input_mgr.queue + weight u.answers ≤ length mgr.queue + weight answers
  pub less :
      u.result ≢ count 0
      → length u.input_mgr.queue + weight u.answers < length mgr.queue + weight answers
  pub same : u.result ≡ count 0 → u.input_mgr ≡ mgr
  pub calm : All IsCalm answers → (u.result ≢ failed) × All IsCalm u.answers

unfoldable number : Results → ℕ
number failed = 0
number (count k) = k

update_some :
    (n : ℕ) (mgr : InputMgr) (answers : List Answer) (again : Option Updated)
    → Path
        (Option Updated)
        (elim n [
          | zero ↦
              if false
              then again
              else some
                  (record { result = count 0; input_mgr = mgr; answers = answers; waited = 0 })
          | suc k ↦
              some
                (record { result = count (suc k); input_mgr = mgr; answers = answers; waited = 0 })
        ])
        (some (record { result = count n; input_mgr = mgr; answers = answers; waited = 0 }))
update_some zero mgr answers again = refl
update_some (suc n) mgr answers again = refl

count_ne : (k : ℕ) → count k ≢ failed
count_ne k e = absurd (cc e)

count_zero : (k : ℕ) → count k ≡ count 0 → k ≡ 0
count_zero k e = unfold number in ap number e

pub update-IsUpdated :
    (mgr : InputMgr) (answers : List Answer)
    → IsFine mgr
    → All IsTimely answers
    → (u : Updated) × (update_input_queue false mgr answers ≡ some u) × IsUpdated mgr answers u
unfolding update_input_queue update_loop weight IsCalm IsTimely
update-IsUpdated mgr [] f t = (
  _,
  refl,
  record {
    fine = f;
    later = tt;
    size = omega arith;
    less = λ ne. absurd (ne refl);
    same = λ e. refl;
    calm = λ c. (count_ne 0, tt);
  },
)
update-IsUpdated mgr (error ∷ answers) f (t, ts) = (
  _,
  refl,
  record {
    fine = f;
    later = ts;
    size = omega arith;
    less = λ ne. omega arith;
    same = λ e. refl;
    calm = λ c. absurd c.0;
  },
)
update-IsUpdated mgr (pushed inputs ∷ answers) f (t, ts) =
    let (mgr', n) = push_all mgr inputs in
    let (f', size, same) = push_all-IsFine mgr inputs f t in
    (
      record { result = count n; input_mgr = mgr'; answers = answers; waited = 0 },
      update_some n mgr' answers
          (update_loop false (back_off min_wait) (0 + min_wait) mgr' answers),
      record {
        fine = f';
        later = ts;
        size = omega (arith, size);
        less = λ ne. omega (arith, size);
        same = λ e. same (count_zero n e);
        calm = λ c. (count_ne n, c.1);
      },
    )
