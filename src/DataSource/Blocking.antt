-- ===== src/DataSource/Blocking.antt =====
-- The update of the input queue in live mode, where the data source first has nothing to tell.
use bgpstream.Base.{
  ℕ, ◌+◌, ◌*◌, ◌≤◌, ◌≡◌, ◌≢◌, inl, inr, refl, true, Option, some, List, [], ◌∷◌, ◌++◌, All, arith,
  ltb, length, Bool-cases,
}
use bgpstream.Input.{push_sorted_input, empty_input_queue}
use bgpstream.DataSource.{
  min_wait, max_wait, Answer, error, pushed, count, push_all, Updated, back_off, update_loop,
  update_input_queue,
}

-- An answer without inputs, and one that is an error or has an input.
unfoldable pub IsQuiet : Answer → Type 0
IsQuiet error = ⊥
IsQuiet (pushed []) = Unit
IsQuiet (pushed (x ∷ inputs)) = ⊥

unfoldable pub IsNews : Answer → Type 0
IsNews error = Unit
IsNews (pushed []) = ⊥
IsNews (pushed (x ∷ inputs)) = Unit

back_off_bounds :
    (b : ℕ) → min_wait ≤ b → b ≤ max_wait → (min_wait ≤ back_off b) × (back_off b ≤ max_wait)
unfolding back_off
back_off_bounds b p q = elim (Bool-cases (ltb max_wait (b * 2))) [
  | inl over ↦ rw over (omega arith, omega arith)
  | inr under ↦ rw under (omega arith, ground arith)
]

-- What the loop comes to from some time on.
abbrev Comes : ℕ → ℕ → List Answer → Option Updated → Type 0
Comes waited steps rest result =
    (u : Updated) × (result ≡ some u)
    × (u.answers ≡ rest)
    × (u.result ≢ count 0)
    × (waited + min_wait * steps ≤ u.waited)
    × (u.waited ≤ waited + max_wait * steps)

news_now :
    (b waited : ℕ) (a : Answer) (rest : List Answer)
    → IsNews a
    → Comes waited 0 rest
        (update_loop true b waited (record { queue = []; status = empty_input_queue }) (a ∷ rest))
unfolding update_loop IsNews push_all push_sorted_input
news_now b waited error rest t = (_, refl, refl, λ e. absurd (cc e), omega arith, omega arith)
news_now b waited (pushed []) rest t = absurd t
news_now b waited (pushed (x ∷ inputs)) rest t =
    (_, refl, refl, λ e. absurd (cc e), omega arith, omega arith)

wait_loop :
    (b waited : ℕ) (quiet : List Answer) (a : Answer) (rest : List Answer)
    → min_wait ≤ b
    → b ≤ max_wait
    → All IsQuiet quiet
    → IsNews a
    → Comes waited (length quiet) rest (
        update_loop true b waited
          (record { queue = []; status = empty_input_queue })
          (quiet ++ (a ∷ rest)))
unfolding update_loop IsQuiet push_all
wait_loop b waited [] a rest p q h t = news_now b waited a rest t
wait_loop b waited (error ∷ quiet) a rest p q (h, hs) t = absurd h
wait_loop b waited (pushed (x ∷ inputs) ∷ quiet) a rest p q (h, hs) t = absurd h
wait_loop b waited (pushed [] ∷ quiet) a rest p q (h, hs) t =
    let (p', q') = back_off_bounds b p q in
    let (u, e, later, news, low, high) =
      wait_loop (back_off b) (waited + b) quiet a rest p' q' hs t in
    (u, e, later, news, omega (arith, low), omega (arith, high))

-- In live mode, with an empty queue, an update ends at the first answer that is an error or has an
-- input; for each answer before it, it has slept at least 30 and at most 150 seconds.
pub update_waits :
    (quiet : List Answer) (a : Answer) (rest : List Answer)
    → All IsQuiet quiet
    → IsNews a
    → (u : Updated) × (update_input_queue true
          (record { queue = []; status = empty_input_queue })
          (quiet ++ (a ∷ rest))
        ≡ some u)
      × (u.answers ≡ rest)
      × (u.result ≢ count 0)
      × (min_wait * length quiet ≤ u.waited)
      × (u.waited ≤ max_wait * length quiet)
unfolding update_input_queue
update_waits quiet a rest h t =
    let (u, e, later, news, low, high) =
      wait_loop min_wait 0 quiet a rest (omega arith) (omega arith) h t in
    (u, e, later, news, omega (arith, low), omega (arith, high))
