-- ===== src/Base/Count.antt =====
-- How many of k successive numbers pass a test.
use Prim.Native.Nat.{ℕ, zero, suc, ◌+◌, ◌≤◌, ◌<◌}
use mathlib.Core.Path.{◌≡◌, refl}
use mathlib.Core.Bool.{Bool, true, false}
use native.Mathlib.Omega.{arith}
use bgpstream.Base.Tests.{if◌then◌else◌}

-- The numbers x with b ≤ x < b + k and f x.
unfoldable pub count_from : ℕ → ℕ → (ℕ → Bool) → ℕ
count_from b zero f = 0
count_from b (suc k) f = (if f b then 1 else 0) + count_from (suc b) k f

-- A range is counted in two parts.
pub count_from-add :
    (b k m n c : ℕ) (f : ℕ → Bool)
    → k + m ≡ n
    → b + k ≡ c
    → count_from b n f ≡ count_from b k f + count_from c m f
unfolding count_from
count_from-add b zero m n c f p q =
    let e : m ≡ n = omega arith in let d : b ≡ c = omega arith in rw (← e, ← d) (omega arith)
count_from-add b (suc k) m zero c f p q = absurd (omega arith)
count_from-add b (suc k) m (suc n) c f p q =
    omega (arith, count_from-add (suc b) k m n c f (omega arith) (omega arith))

-- Tests that agree on the range have one count.
pub count_from-ext :
    (b k : ℕ) (f g : ℕ → Bool)
    → ((x : ℕ) → b ≤ x → x < b + k → f x ≡ g x)
    → count_from b k f ≡ count_from b k g
unfolding count_from
count_from-ext b zero f g h = refl
count_from-ext b (suc k) f g h =
    rw (h b (omega arith) (omega arith))
      (omega (arith, count_from-ext (suc b) k f g (λ x p q. h x (omega arith) (omega arith))))

pub count_from-none : (b k : ℕ) → count_from b k (λ _. false) ≡ 0
unfolding count_from
count_from-none b zero = refl
count_from-none b (suc k) = omega (arith, count_from-none (suc b) k)

pub count_from-all : (b k : ℕ) → count_from b k (λ _. true) ≡ k
unfolding count_from
count_from-all b zero = refl
count_from-all b (suc k) = omega (arith, count_from-all (suc b) k)
