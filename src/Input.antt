-- ===== src/Input.antt =====
-- lib/bgpstream_input.{h,c}: the queue of the dump files that are to be read, ordered by time.
pub mod Queue
pub mod Push
pub mod Batch
pub mod Drain
mod Examples
use Prim.Native.Char.{code}
use mathlib.Core.Option
use Prim.Native.String.{String}
use bgpstream.Base.Text.{str_eq}
use bgpstream.Base.{
  ℕ, zero, suc, ◌+◌, ◌-◌, ◌%◌, ◌^◌, Bool, true, false, ◌&&◌, Option, none, some, List, [], ◌∷◌, ltb,
  leb, ◌==◌, take, drop, if◌then◌else◌,
}

-- bgpstream_input_t without its link. Its two times are ints that are not negative.
pub record Input : Type 0 where
  pub filename : String
  pub fileproject : String
  pub filecollector : String
  pub filetype : String
  pub epoch_filetime : ℕ
  pub time_span : ℕ

pub data InputMgrStatus : Type 0 where
  empty_input_queue non_empty_input_queue : InputMgrStatus

-- bgpstream_input_mgr_t. `queue` is the list from `head` on, and `tail` is its last element.
-- `last_to_process` is null between two calls.
pub record InputMgr : Type 0 where
  pub queue : List Input
  pub status : InputMgrStatus

abbrev pub create : InputMgr
create = record { queue = []; status = empty_input_queue }

unfoldable pub is_empty : InputMgr → Bool
is_empty mgr = elim mgr.status [ empty_input_queue ↦ true | non_empty_input_queue ↦ false ]

-- s[0], the byte 0 where the text ends.
unfoldable pub first_char : String → ℕ
first_char String.[] = 0
first_char (String.◌∷◌ c s) = code c

-- The test for the input that is in the queue already.
unfoldable pub is_same : Input → Input → Bool
is_same current input =
    current.epoch_filetime == input.epoch_filetime
    && (str_eq current.filecollector input.filecollector
        && (str_eq current.fileproject input.fileproject && str_eq current.filetype input.filetype))

-- The test for a RIB in front of the updates of the same time.
unfoldable pub goes_before : Input → Input → Bool
goes_before input current =
    current.epoch_filetime == input.epoch_filetime
    && (first_char input.filetype == 114 && first_char current.filetype == 117)

-- The scan of push_sorted_input and the insertion: `none` where it finds the input itself.
unfoldable pub push_loop : Input → List Input → Option (List Input)
push_loop input [] = some (input ∷ [])
push_loop input (current ∷ next) =
    if leb current.epoch_filetime input.epoch_filetime
    then (if is_same current input
        then none
        else if goes_before input current
        then some (input ∷ current ∷ next)
        else Option.map (◌∷◌ current) (push_loop input next))
    else some (input ∷ current ∷ next)

-- bgpstream_input_mgr_push_sorted_input: the manager, and whether it returns 1.
unfoldable pub push_sorted_input : InputMgr → Input → InputMgr × Bool
push_sorted_input mgr input = elim mgr.status [
  | empty_input_queue ↦ (record { queue = input ∷ []; status = non_empty_input_queue }, true)
  | non_empty_input_queue ↦ elim (push_loop input mgr.queue) [
    | none ↦ (mgr, false)
    | some queue ↦ (record mgr { queue = queue }, true)
  ]
]

-- An int: `negsuc n` is -(n + 1).
pub data ℤ : Type 0 where
  pos negsuc : ℕ → ℤ

-- The int of 32 bits that a bit pattern, taken modulo 2 ^ 32, stands for.
unfoldable pub signed32 : ℕ → ℤ
signed32 n = let w = n % 2 ^ 32 in if ltb w (2 ^ 31) then pos w else negsuc (2 ^ 32 - 1 - w)

-- The sum and the difference of two ints that are not negative. C leaves a sum above INT_MAX
-- undefined; here it wraps around, as the machine's addition does.
unfoldable pub int_add : ℕ → ℕ → ℤ
int_add a b = signed32 (a + b)

unfoldable pub int_sub : ℕ → ℕ → ℤ
int_sub a b = signed32 (a + (2 ^ 32 - b % 2 ^ 32))

-- a >= b.
unfoldable pub at_least : ℤ → ℤ → Bool
at_least (pos a) (pos b) = leb b a
at_least (pos a) (negsuc b) = true
at_least (negsuc a) (pos b) = false
at_least (negsuc a) (negsuc b) = leb a b

-- bgpstream_set_intervals: the two ends of an input's interval.
unfoldable pub interval_start : Input → ℤ
interval_start input =
    if str_eq input.filetype "ribs"
    then int_sub input.epoch_filetime input.time_span
    else if str_eq input.filetype "updates"
    then signed32 input.epoch_filetime
    else pos 0

unfoldable pub interval_end : Input → ℤ
interval_end input =
    if str_eq input.filetype "ribs"
    then int_add input.epoch_filetime input.time_span
    else if str_eq input.filetype "updates"
    then int_add input.epoch_filetime input.time_span
    else pos 0

abbrev pub max_readers : ℕ
max_readers = 200

-- The loop of set_last_to_process with `left` readers to go: the number of inputs up to
-- last_to_process, 0 where it stays null.
unfoldable pub last_loop : ℕ → ℤ → List Input → ℕ
last_loop zero to_process_end iterator = 0
last_loop (suc left) to_process_end [] = 0
last_loop (suc left) to_process_end (iterator ∷ next) =
    let current_end = interval_end iterator in
    let rest =
      last_loop left (if at_least to_process_end current_end then to_process_end else current_end)
        next in
    if at_least (interval_start iterator) to_process_end then 0 else suc rest

unfoldable pub set_last_to_process : List Input → ℕ
set_last_to_process [] = 0
set_last_to_process (head ∷ next) = last_loop max_readers (interval_end head) (head ∷ next)

-- The queue behind last_to_process, with the status.
unfoldable pub cut : List Input → InputMgr
cut [] = record { queue = []; status = empty_input_queue }
cut (head ∷ next) = record { queue = head ∷ next; status = non_empty_input_queue }

-- get_queue_to_process where `last` inputs are to be processed.
unfoldable pub take_last : InputMgr → ℕ → Option (List Input) × InputMgr
take_last mgr zero = (none, mgr)
take_last mgr (suc last) = (some (take (suc last) mgr.queue), cut (drop (suc last) mgr.queue))

-- bgpstream_input_mgr_get_queue_to_process: `none` is NULL.
unfoldable pub get_queue_to_process : InputMgr → Option (List Input) × InputMgr
get_queue_to_process mgr = elim mgr.status [
  | empty_input_queue ↦ (none, mgr)
  | non_empty_input_queue ↦ take_last mgr (set_last_to_process mgr.queue)
]
