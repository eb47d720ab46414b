-- ===== src/Prelude/Threads.antt =====
-- Threads by number: a function from numbers to what each thread holds, changed at one place, and a
-- weight summed over the threads below `n`.
use Prim.Native.Nat.{ℕ, zero, suc, ◌+◌, ◌≤◌, ◌<◌}
use mathlib.Core.Path.{◌≡◌, refl}
use mathlib.Core.Logic.{◌≢◌}
use native.Mathlib.Decide.{dec_lt}
use native.Mathlib.Omega.{arith}
use tinytools.Prelude.Tests.{◌==◌, if◌then◌else◌}

-- `at i` becomes `a`.
abbrev pub update {ℓ} : {A : Type ℓ} → (ℕ → A) → ℕ → A → ℕ → A
update at i a j = if i == j then a else at j

pub update_self {ℓ} : {A : Type ℓ} (at : ℕ → A) (i : ℕ) (a : A) → update at i a i ≡ a
update_self at i a = ground arith

pub update_ne {ℓ} :
    {A : Type ℓ} (at : ℕ → A) (i : ℕ) (a : A) (j : ℕ) → i ≢ j → update at i a j ≡ at j
update_ne at i a j h = ground arith

module _ {ℓ} {A : Type ℓ} (weight : A → ℕ) where
  unfoldable pub sum_below : ℕ → (ℕ → A) → ℕ
  sum_below zero at = 0
  sum_below (suc n) at = weight (at n) + sum_below n at

  -- A thread from `n` on does not count.
  sum_below-update_ge :
      (n : ℕ) (at : ℕ → A) (i : ℕ) (a : A) → n ≤ i → sum_below n (update at i a) ≡ sum_below n at
  unfolding sum_below
  sum_below-update_ge zero at i a h = refl
  sum_below-update_ge (suc n) at i a h = ground (arith, sum_below-update_ge n at i a)

  -- A change at a thread that counts trades the old weight for the new one.
  pub sum_below-update :
      (n : ℕ) (at : ℕ → A) (i : ℕ) (a : A)
      → i < n
      → sum_below n (update at i a) + weight (at i) ≡ sum_below n at + weight a
  unfolding sum_below
  sum_below-update zero at i a h = absurd (omega arith)
  sum_below-update (suc n) at i a h = elim (dec_lt i n) [
    | yes below ↦ ground (arith, sum_below-update n at i a below)
    | no last ↦ ground (arith, sum_below-update_ge n at i a)
  ]

  -- Each thread's weight is part of the sum.
  pub weight-le-sum_below : (n : ℕ) (at : ℕ → A) (i : ℕ) → i < n → weight (at i) ≤ sum_below n at
  unfolding sum_below
  weight-le-sum_below zero at i h = absurd (omega arith)
  weight-le-sum_below (suc n) at i h = elim (dec_lt i n) [
    | yes below ↦ omega (arith, weight-le-sum_below n at i below)
    | no last ↦ ground arith
  ]

  -- And two threads' weights together.
  pub two-le-sum_below :
      (n : ℕ) (at : ℕ → A) (i j : ℕ)
      → i < n
      → j < n
      → i ≢ j
      → weight (at i) + weight (at j) ≤ sum_below n at
  unfolding sum_below
  two-le-sum_below zero at i j hi hj ne = absurd (omega arith)
  two-le-sum_below (suc n) at i j hi hj ne = elim (dec_lt i n) [
    | yes i_below ↦ elim (dec_lt j n) [
      | yes j_below ↦ omega (arith, two-le-sum_below n at i j i_below j_below ne)
      | no j_last ↦ ground (arith, weight-le-sum_below n at i i_below)
    ]
    | no i_last ↦ ground (arith, weight-le-sum_below n at j)
  ]

  pub sum_below-eq_zero :
      (n : ℕ) (at : ℕ → A) → ((i : ℕ) → i < n → weight (at i) ≡ 0) → sum_below n at ≡ 0
  unfolding sum_below
  sum_below-eq_zero zero at h = refl
  sum_below-eq_zero (suc n) at h =
      omega (arith, h n (omega arith), sum_below-eq_zero n at (λ i p. h i (omega arith)))

  -- A sum that is not 0 has a thread that weighs something.
  pub sum_below-pos :
      (n : ℕ) (at : ℕ → A) → 0 < sum_below n at → (i : ℕ) × (i < n) × (0 < weight (at i))
  unfolding sum_below
  sum_below-pos zero at h = absurd (omega arith)
  sum_below-pos (suc n) at h = elim (dec_lt 0 (weight (at n))) [
    | yes here ↦ (n, omega arith, here)
    | no none_here ↦ let (i, p, q) = sum_below-pos n at (omega arith) in (i, omega arith, q)
  ]
