-- ===== src/Input/Batch.antt =====
-- bgpstream_input_mgr_get_queue_to_process: the inputs that are read together.
use bgpstream.Base.Text.{str_eq_iff}
use bgpstream.Base.{
  ℕ, zero, suc, ◌≤◌, ◌<◌, ◌+◌, ◌-◌, ◌%◌, ◌^◌, ◌≡◌, refl, sym, ap, true, false, Option, none, some,
  List, [], ◌∷◌, ◌++◌, ltb, arith, inl, inr, Bool-cases, ◌⊎◌, if◌then◌else◌, take, drop, length,
}
use bgpstream.Input.{
  Input, InputMgr, InputMgrStatus, empty_input_queue, non_empty_input_queue, at_least, signed32,
  int_add, int_sub, ℤ, pos, interval_start, interval_end, max_readers, last_loop,
  set_last_to_process, cut, take_last, get_queue_to_process,
}
use bgpstream.Input.Queue.{IsQueue}
use bgpstream.Input.Push.{IsValid, IsConsistent}

-- The end of the time that inputs affect, from `to_process_end` on.
unfoldable pub extend : ℤ → Input → ℤ
extend to_process_end input =
    if at_least to_process_end (interval_end input) then to_process_end else interval_end input

unfoldable pub span_end : ℤ → List Input → ℤ
span_end to_process_end [] = to_process_end
span_end to_process_end (input ∷ next) = span_end (extend to_process_end input) next

-- Each input begins before the end of the time that those before it affect.
unfoldable pub AllOverlap : ℤ → List Input → Type 0
AllOverlap to_process_end [] = Unit
AllOverlap to_process_end (input ∷ next) =
    (at_least (interval_start input) to_process_end ≡ false)
    × AllOverlap (extend to_process_end input) next

-- The first input begins at that end or later.
unfoldable pub IsApart : ℤ → List Input → Type 0
IsApart to_process_end [] = Unit
IsApart to_process_end (input ∷ next) = at_least (interval_start input) to_process_end ≡ true

-- A number of inputs that the loop stops behind.
pub record IsLast (left : ℕ) (to_process_end : ℤ) (queue : List Input) (last : ℕ) : Type 0 where
  pub within : last ≤ length queue
  pub bounded : last ≤ left
  pub overlap : AllOverlap to_process_end (take last queue)
  pub apart : last < left → IsApart (span_end to_process_end (take last queue)) (drop last queue)

last_loop-IsLast :
    (left : ℕ) (to_process_end : ℤ) (queue : List Input)
    → IsLast left to_process_end queue (last_loop left to_process_end queue)
unfolding last_loop AllOverlap IsApart span_end extend
last_loop-IsLast zero e queue = record {
  within = omega arith;
  bounded = omega arith;
  overlap = tt;
  apart = λ p. absurd (omega arith);
}
last_loop-IsLast (suc left) e [] = record {
  within = omega arith;
  bounded = omega arith;
  overlap = tt;
  apart = λ _. tt;
}
last_loop-IsLast (suc left) e (input ∷ next) =
    elim (Bool-cases (at_least (interval_start input) e)) [
      | inl apart ↦
          rw apart (record {
            within = omega arith;
            bounded = omega arith;
            overlap = tt;
            apart = λ _. apart;
          })
      | inr overlaps ↦
          let rest = last_loop-IsLast left (extend e input) next in
          rw (overlaps, last_loop)
            (record {
              within = omega (arith, rest.within);
              bounded = omega (arith, rest.bounded);
              overlap = (overlaps, rest.overlap);
              apart = λ p. rest.apart (omega arith);
            })
    ]

append-take-drop : (n : ℕ) (queue : List Input) → take n queue ++ drop n queue ≡ queue
append-take-drop zero queue = refl
append-take-drop (suc n) [] = refl
append-take-drop (suc n) (a ∷ queue) = ap (◌∷◌ a) (append-take-drop n queue)

length-take : (n : ℕ) (queue : List Input) → n ≤ length queue → length (take n queue) ≡ n
length-take zero queue p = refl
length-take (suc n) [] p = absurd (omega arith)
length-take (suc n) (a ∷ queue) p = omega (arith, length-take n queue (omega arith))

drop-IsQueue : (n : ℕ) (queue : List Input) → IsQueue queue → IsQueue (drop n queue)
drop-IsQueue zero queue q = q
drop-IsQueue (suc n) [] q = tt
drop-IsQueue (suc n) (a ∷ queue) q = drop-IsQueue n queue q.1

cut-IsValid :
    (queue : List Input) → IsQueue queue → IsValid (cut queue) × ((cut queue).queue ≡ queue)
unfolding cut IsConsistent
cut-IsValid [] q = (record { consistent = tt; ordered = tt }, refl)
cut-IsValid (a ∷ queue) q = (record { consistent = tt; ordered = q }, refl)

-- An input whose interval does not begin before its end.
abbrev pub IsVoid : Input → Type 0
IsVoid input = at_least (interval_start input) (interval_end input) ≡ true

abbrev pub IsStuck : List Input → Type 0
IsStuck [] = Unit {0}
IsStuck (head ∷ _) = IsVoid head

-- The batch that begins at `head`.
pub record IsBatch (mgr : InputMgr) (head : Input) (batch : List Input) (mgr' : InputMgr)
    : Type 0 where
  pub later : List Input
  pub starts : batch ≡ head ∷ later
  pub split : mgr.queue ≡ batch ++ mgr'.queue
  pub valid : IsValid mgr'
  pub bounded : length batch ≤ max_readers
  pub overlap : AllOverlap (interval_end head) batch
  pub apart : length batch < max_readers → IsApart (span_end (interval_end head) batch) mgr'.queue

-- What get_queue_to_process comes to.
pub data Batched (mgr : InputMgr) : Option (List Input) → InputMgr → Type 0 where
  nothing : IsStuck mgr.queue → Batched mgr none mgr
  batched :
      (head : Input) (batch : List Input) (mgr' : InputMgr)
      → at_least (interval_start head) (interval_end head) ≡ false
      → IsBatch mgr head batch mgr'
      → Batched mgr (some batch) mgr'

last_loop-zero :
    (left : ℕ) (e : ℤ) (head : Input) (next : List Input)
    → last_loop (suc left) e (head ∷ next) ≡ 0
    → at_least (interval_start head) e ≡ true
unfolding last_loop
last_loop-zero left e head next h = elim (Bool-cases (at_least (interval_start head) e)) [
  | inl apart ↦ apart
  | inr overlaps ↦ absurd (omega (arith, rw overlaps at h))
]

take_last_lem :
    (head : Input) (next : List Input) (last : ℕ)
    → IsQueue (head ∷ next)
    → last_loop max_readers (interval_end head) (head ∷ next) ≡ last
    → let mgr : InputMgr = record { queue = head ∷ next; status = non_empty_input_queue } in
      let (result, mgr') = take_last mgr last in Batched mgr result mgr'
unfolding take_last AllOverlap
take_last_lem head next zero q e = nothing (last_loop-zero 199 (interval_end head) head next e)
take_last_lem head next (suc last) q e =
    let is_last : IsLast max_readers (interval_end head) (head ∷ next) (suc last) =
      rw e at (last_loop-IsLast max_readers (interval_end head) (head ∷ next)) in
    let (valid, same) = cut-IsValid (drop last next) (drop-IsQueue last next q.1) in
    let size = length-take (suc last) (head ∷ next) is_last.within in
    batched head (take (suc last) (head ∷ next)) (cut (drop last next)) (is_last.overlap.0)
      (record {
        later = take last next;
        starts = refl;
        split = rw same (sym (append-take-drop (suc last) (head ∷ next)));
        valid = valid;
        bounded = omega (arith, size, is_last.bounded);
        overlap = is_last.overlap;
        apart = λ p. rw same (is_last.apart (omega (arith, size)));
      })

batch_at :
    (queue : List Input) (status : InputMgrStatus)
    → IsConsistent status queue
    → IsQueue queue
    → let mgr : InputMgr = record { queue = queue; status = status } in
      let (result, mgr') = get_queue_to_process mgr in Batched mgr result mgr'
unfolding get_queue_to_process IsConsistent set_last_to_process
batch_at [] empty_input_queue c q = nothing tt
batch_at (head ∷ next) empty_input_queue c q = absurd c
batch_at [] non_empty_input_queue c q = absurd c
batch_at (head ∷ next) non_empty_input_queue c q = take_last_lem head next _ q refl

-- With the ends of intervals computed on ints of 32 bits that wrap around: on a valid manager
-- get_queue_to_process either returns NULL and changes nothing, and then the queue
-- is empty or its head has an interval that does not begin before its end; or the head has one that
-- does, and the result is a batch that starts with the head: batch and remaining queue are the queue,
-- the manager stays valid, the batch has at most 200 inputs, each begins before the end of the time
-- that the head and those before it affect, and if it has fewer than 200, the next in the queue does
-- not.
pub get_queue_to_process-Batched :
    (mgr : InputMgr)
    → IsValid mgr
    → let (result, mgr') = get_queue_to_process mgr in Batched mgr result mgr'
get_queue_to_process-Batched mgr v = batch_at mgr.queue mgr.status v.consistent v.ordered

-- A RIB or updates file that spans some time and ends before 2 ^ 31, as an int does.
pub record IsTimed (input : Input) : Type 0 where
  pub kind : (input.filetype ≡ "ribs") ⊎ (input.filetype ≡ "updates")
  pub spans : 0 < input.time_span
  pub fits : input.epoch_filetime + input.time_span < 2 ^ 31

signed32-pos : (n : ℕ) → n < 2 ^ 31 → signed32 n ≡ pos n
unfolding signed32
signed32-pos n lt =
    let whole : n % 2 ^ 32 ≡ n = omega arith in
    let below : ltb n (2 ^ 31) ≡ true = ground arith in rw (whole, below) refl

int_sub-below : (a b : ℕ) → 0 < b → a + b < 2 ^ 31 → at_least (int_sub a b) (pos (a + b)) ≡ false
unfolding int_sub signed32 at_least
int_sub-below a b some_time fits =
    let w : ℕ = (a + (2 ^ 32 - b % 2 ^ 32)) % 2 ^ 32 in
    elim (Bool-cases (ltb w (2 ^ 31))) [ inl low ↦ rw low (ground arith) | inr high ↦ rw high refl ]

pub timed-not_void :
    (input : Input) → IsTimed input → at_least (interval_start input) (interval_end input) ≡ false
unfolding interval_start interval_end int_add
timed-not_void input t =
    let fits = t.fits in
    let spans = t.spans in
    let end = signed32-pos (input.epoch_filetime + input.time_span) fits in
    elim t.kind [
      | inl rib ↦
          rw ((str_eq_iff input.filetype "ribs").1 rib, end)
            (int_sub-below input.epoch_filetime input.time_span spans fits)
      | inr updates ↦
          rw (updates, end, signed32-pos input.epoch_filetime (omega arith))
            (unfold at_least in ground arith)
    ]
