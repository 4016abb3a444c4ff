-- ===== src/Reader/Opening.antt =====
-- The first read of a dump: thread_producer's tries to open it, and what read_new_data then finds.
use bgpstream.Base.{
  ℕ, zero, suc, ◌+◌, ◌*◌, ◌≤◌, ◌≡◌, refl, ◌∙◌, Bool, true, false, ◌||◌, List, [], ◌∷◌, arith, ◌==◌,
  take, if◌then◌else◌,
}
use bgpstream.Reader.{open_loop, dump_open_max_retries, dump_open_min_retry_wait}

-- Whether one of the tries opens the dump.
unfoldable pub any_opens : List Bool → Bool
any_opens [] = false
any_opens (opened ∷ next) = opened || any_opens next

no_more_tries : (rounds delay slept : ℕ) → (open_loop rounds [] delay slept).0 ≡ false
unfolding open_loop
no_more_tries zero delay slept = refl
no_more_tries (suc rounds) delay slept = no_more_tries rounds (delay * 2) _

open_loop-opens :
    (rounds : ℕ) (attempts : List Bool) (delay slept : ℕ)
    → (open_loop rounds attempts delay slept).0 ≡ any_opens (take rounds attempts)
unfolding open_loop any_opens
open_loop-opens zero attempts delay slept = refl
open_loop-opens (suc rounds) [] delay slept = no_more_tries rounds (delay * 2) _
open_loop-opens (suc rounds) (true ∷ attempts) delay slept = refl
open_loop-opens (suc rounds) (false ∷ attempts) delay slept =
    open_loop-opens rounds attempts (delay * 2) _

-- The seconds slept before the tries that are left.
unfoldable pub waits : ℕ → ℕ → ℕ
waits zero delay = 0
waits (suc zero) delay = 0
waits (suc (suc rounds)) delay = delay + waits (suc rounds) (delay * 2)

open_loop-waits :
    (rounds : ℕ) (attempts : List Bool) (delay slept : ℕ)
    → (slept ≤ (open_loop rounds attempts delay slept).1)
      × ((open_loop rounds attempts delay slept).1 ≤ slept + waits rounds delay)
      × ((open_loop rounds attempts delay slept).0 ≡ false
          → (open_loop rounds attempts delay slept).1 ≡ slept + waits rounds delay)
unfolding open_loop waits
open_loop-waits zero attempts delay slept = (omega arith, omega arith, λ _. omega arith)
open_loop-waits (suc zero) [] delay slept = (omega arith, omega arith, λ _. omega arith)
open_loop-waits (suc zero) (true ∷ attempts) delay slept =
    (omega arith, omega arith, λ e. absurd (cc e))
open_loop-waits (suc zero) (false ∷ attempts) delay slept =
    (omega arith, omega arith, λ _. omega arith)
open_loop-waits (suc (suc rounds)) [] delay slept =
    let waited = if suc rounds == 0 then slept else slept + delay in
    let w : waited ≡ slept + delay = ground arith in
    let (low, high, all) = open_loop-waits (suc rounds) [] (delay * 2) waited in
    (omega (arith, low, w), omega (arith, high, w), λ e. all e ∙ omega (arith, w))
open_loop-waits (suc (suc rounds)) (true ∷ attempts) delay slept =
    (omega arith, omega arith, λ e. absurd (cc e))
open_loop-waits (suc (suc rounds)) (false ∷ attempts) delay slept =
    let waited = if suc rounds == 0 then slept else slept + delay in
    let w : waited ≡ slept + delay = ground arith in
    let (low, high, all) = open_loop-waits (suc rounds) attempts (delay * 2) waited in
    (omega (arith, low, w), omega (arith, high, w), λ e. all e ∙ omega (arith, w))

-- thread_producer opens the dump if one of its first 5 tries does, and never waits for more than 150
-- seconds in all; if no try does, it waits for exactly these 10 + 20 + 40 + 80.
pub open_loop_lem :
    (attempts : List Bool)
    → let (opened, slept) = open_loop dump_open_max_retries attempts dump_open_min_retry_wait 0 in
      (opened ≡ any_opens (take dump_open_max_retries attempts))
      × (slept ≤ 150)
      × (opened ≡ false → slept ≡ 150)
unfolding waits
open_loop_lem attempts =
    let (low, high, all) = open_loop-waits 5 attempts 10 0 in
    (open_loop-opens 5 attempts 10 0, omega (arith, high), λ e. all e)
