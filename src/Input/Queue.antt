-- ===== src/Input/Queue.antt =====
-- The scan of bgpstream_input_mgr_push_sorted_input: the order of the queue, and its lack of duplicates.
use Prim.Native.String.{String}
use mathlib.Core.Option
use bgpstream.Base.Text.{str_eq, str_eq_iff}
use bgpstream.Base.{
  ◌≤◌, ◌<◌, ◌≡◌, refl, sym, ap, ◌∙◌, Bool, true, false, ◌||◌, Option, none, some, List, [], ◌∷◌,
  ◌++◌, leb, All, arith, inl, inr, Bool-cases,
}
use bgpstream.Input.{Input, first_char, is_same, goes_before, push_loop}

-- What the queue promises of an input and a later one: the time does not fall, at the same time no
-- RIB is behind updates, and they are not the same.
pub record IsBefore (a b : Input) : Type 0 where
  pub in_time : a.epoch_filetime ≤ b.epoch_filetime
  pub ribs_first : goes_before b a ≡ false
  pub differ : is_same a b ≡ false

abbrev pub IsQueue : List Input → Type 0
IsQueue [] = Unit {0}
IsQueue (a ∷ next) = All (IsBefore a) next × IsQueue next

unfoldable pub any_same : Input → List Input → Bool
any_same input [] = false
any_same input (a ∷ next) = is_same a input || any_same input next

-- A result that has the input at some place, and otherwise is the queue.
pub record IsInserted (input : Input) (queue queue' : List Input) : Type 0 where
  pub front : List Input
  pub back : List Input
  pub old : queue ≡ front ++ back
  pub new : queue' ≡ front ++ (input ∷ back)

same-filetype : (a b : Input) → is_same a b ≡ true → a.filetype ≡ b.filetype
unfolding is_same
same-filetype a b e = (str_eq_iff a.filetype b.filetype).0 (ground arith)

same-time : (a b : Input) → is_same a b ≡ true → a.epoch_filetime ≡ b.epoch_filetime
unfolding is_same
same-time a b e = ground arith

str_eq-sym : (s t : String) → str_eq s t ≡ str_eq t s
str_eq-sym s t = elim (Bool-cases (str_eq s t)) [
  | inl e ↦ cc (e, (str_eq_iff t s).1 (sym ((str_eq_iff s t).0 e)))
  | inr d ↦ elim (Bool-cases (str_eq t s)) [
    | inl e ↦ cc (e, (str_eq_iff s t).1 (sym ((str_eq_iff t s).0 e)))
    | inr e ↦ cc (d, e)
  ]
]

is_same_comm : (a b : Input) → is_same a b ≡ is_same b a
unfolding is_same
is_same_comm a b =
    rw
      (
        str_eq-sym a.filecollector b.filecollector,
        str_eq-sym a.fileproject b.fileproject,
        str_eq-sym a.filetype b.filetype,
      )
      (ground arith)

is_same-sym : (a b : Input) → is_same a b ≡ false → is_same b a ≡ false
is_same-sym a b d = is_same_comm b a ∙ d

earlier-differ :
    (a b : Input)
    → a.epoch_filetime < b.epoch_filetime
    → (is_same a b ≡ false) × (is_same b a ≡ false) × (goes_before b a ≡ false)
unfolding is_same goes_before
earlier-differ a b p = ground arith

earlier-IsBefore : (a b : Input) → a.epoch_filetime < b.epoch_filetime → IsBefore a b
earlier-IsBefore a b p =
    let (d, _, g) = earlier-differ a b p in
    record { in_time = omega arith; ribs_first = g; differ = d }

-- A RIB found a place in front of updates of its time: nothing behind them is the same.
module _ (input current : Input) (e : goes_before input current ≡ true) where
  found_place :
      (input.epoch_filetime ≡ current.epoch_filetime)
      × (first_char input.filetype ≡ 114)
      × (first_char current.filetype ≡ 117)
  unfolding goes_before
  found_place = ground arith

  other_kind : (x : Input) → (goes_before x input ≡ false)
  unfolding goes_before
  other_kind x = ground (arith, found_place)

  goes_before-kind :
      (x : Input)
      → x.epoch_filetime ≡ current.epoch_filetime
      → first_char x.filetype ≡ 114
      → goes_before x current ≡ true
  unfolding goes_before
  goes_before-kind x p q = ground (arith, found_place)

  behind_differ : (x : Input) → goes_before x current ≡ false → is_same x input ≡ false
  behind_differ x g = elim (Bool-cases (is_same x input)) [
    | inl same ↦ absurd (
        cc (
          g,
          goes_before-kind x (same-time x input same ∙ found_place.0)
              (ap first_char (same-filetype x input same) ∙ found_place.1),
        ))
    | inr differs ↦ differs
  ]

module _ (input current : Input) where
  -- The branches of the scan at `current`.
  passed-IsBefore :
      current.epoch_filetime ≤ input.epoch_filetime
      → is_same current input ≡ false
      → goes_before input current ≡ false
      → IsBefore current input
  passed-IsBefore p d g = record { in_time = p; ribs_first = g; differ = d }

  front-later :
      (next : List Input)
      → input.epoch_filetime < current.epoch_filetime
      → All (IsBefore current) next
      → (any_same input (current ∷ next) ≡ false) × All (IsBefore input) (current ∷ next)
  unfolding any_same
  front-later [] p h =
      (rw (earlier-differ input current p).1 refl, (earlier-IsBefore input current p, tt))
  front-later (x ∷ next) p h =
      let q : input.epoch_filetime < x.epoch_filetime = omega (arith, h.0.in_time, p) in
      let (none_same, before) = front-later next p h.1 in
      (
        rw (earlier-differ input x q).1 none_same,
        (before.0, (earlier-IsBefore input x q, before.1)),
      )

  front-rib :
      (next : List Input)
      → is_same current input ≡ false
      → goes_before input current ≡ true
      → All (IsBefore current) next
      → (any_same input (current ∷ next) ≡ false) × All (IsBefore input) (current ∷ next)
  unfolding any_same
  front-rib [] d g h = (
    rw d refl,
    (
      record {
        in_time = omega (arith, (found_place input current g).0);
        ribs_first = other_kind input current g current;
        differ = is_same-sym current input d;
      },
      tt,
    ),
  )
  front-rib (x ∷ next) d g h =
      let differs : is_same x input ≡ false = behind_differ input current g x h.0.ribs_first in
      let (none_same, before) = front-rib next d g h.1 in
      (
        rw differs none_same,
        (
          before.0,
          (
            record {
              in_time = omega (arith, (found_place input current g).0, h.0.in_time);
              ribs_first = other_kind input current g x;
              differ = is_same-sym x input differs;
            },
            before.1,
          ),
        ),
      )

All-inserted :
    (P : Input → Type 0) (front back : List Input) (input : Input)
    → All P (front ++ back)
    → P input
    → All P (front ++ (input ∷ back))
All-inserted P [] back input h p = (p, h)
All-inserted P (a ∷ front) back input h p = (h.0, All-inserted P front back input h.1 p)

-- What the scan comes to: the input is there, or is not and enters the queue.
pub data Pushed (input : Input) (queue : List Input) (result : Option (List Input)) : Type 0 where
  found : any_same input queue ≡ true → result ≡ none → Pushed input queue result
  entered :
      any_same input queue ≡ false
      → (queue' : List Input) → result ≡ some queue'
      → IsQueue queue'
      → IsInserted input queue queue'
      → Pushed input queue result

pass-Pushed :
    (input current : Input) (next : List Input) (result : Option (List Input))
    → is_same current input ≡ false
    → IsBefore current input
    → All (IsBefore current) next
    → Pushed input next result
    → Pushed input (current ∷ next) (Option.map (◌∷◌ current) result)
unfolding any_same
pass-Pushed input current next result d b h (found same e) = found (rw d same) (rw e refl)
pass-Pushed input current next result d b h (entered same queue' e q i) =
    let behind : All (IsBefore current) queue' =
      rw i.new (All-inserted (IsBefore current) i.front i.back input (rw i.old at h) b) in
    entered (rw d same) (current ∷ queue') (rw e refl) (behind, q)
      (record {
        front = current ∷ i.front;
        back = i.back;
        old = ap (◌∷◌ current) i.old;
        new = ap (◌∷◌ current) i.new;
      })

pub push_loop_lem :
    (input : Input) (queue : List Input)
    → IsQueue queue
    → Pushed input queue (push_loop input queue)
unfolding push_loop any_same
push_loop_lem input [] q =
    entered refl (input ∷ []) refl (tt, tt)
      (record { front = []; back = []; old = refl; new = refl })
push_loop_lem input (current ∷ next) q =
    let at_front =
      λ (same : any_same input (current ∷ next) ≡ false)
          (b : All (IsBefore input) (current ∷ next)).
        entered same (input ∷ current ∷ next) refl (b, q)
          (record { front = []; back = current ∷ next; old = refl; new = refl }) in
    elim (Bool-cases (leb current.epoch_filetime input.epoch_filetime)) [
      | inr later ↦
          let (same, b) = front-later input current next (ground arith) q.0 in
          rw later (at_front same b)
      | inl p ↦ elim (Bool-cases (is_same current input)) [
        | inl same ↦ rw (p, same) (found (rw same refl) refl)
        | inr d ↦ elim (Bool-cases (goes_before input current)) [
          | inl g ↦
              let (same, b) = front-rib input current next d g q.0 in rw (p, d, g) (at_front same b)
          | inr g ↦
              rw (p, d, g)
                (pass-Pushed input current next (push_loop input next) d
                  (passed-IsBefore input current (ground arith) d g) q.0
                  (push_loop_lem input next q.1))
        ]
      ]
    ]
