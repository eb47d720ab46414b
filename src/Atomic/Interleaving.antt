-- ===== src/Atomic/Interleaving.antt =====
-- Threads that add to and subtract from one cell with src/tt_atomic.c, in any order, as
-- `increment_counter` of tests/test_thread.c does. Each call is one step.
use tinytools.Prelude.{
  ℕ, ◌+◌, ◌-◌, ◌%◌, ◌^◌, ◌<◌, ◌≡◌, refl, ap, ◌∙◌, Option, some, List, [], ◌∷◌, arith,
}
use tinytools.Prelude.Threads.{update, sum_below, sum_below-update, sum_below-eq_zero}
use tinytools.Atomic.{AtomicInt, add, sub}
use tinytools.Atomic.Order.{MemoryOrder}

-- One call of `tt_atomic_add` or `tt_atomic_sub` on the shared cell.
pub data Update : Type 0 where
  plus minus : (v : ℕ) → MemoryOrder → Update

unfoldable pub perform : Option AtomicInt → Update → Option AtomicInt
perform a (plus v order) = (add a v order).1
perform a (minus v order) = (sub a v order).1

-- What an update adds, modulo 2^32.
abbrev pub delta : Update → ℕ
delta (plus v order) = v
delta (minus v order) = 2 ^ 32 - v % 2 ^ 32

abbrev pub deltas : List Update → ℕ
deltas [] = 0
deltas (u ∷ us) = delta u + deltas us

-- The cell, and the calls that each thread has still to make.
pub record System : Type 0 where
  pub cell : AtomicInt
  pub rest : ℕ → List Update

-- Thread `i` makes its next call.
pub data Step (n : ℕ) (s t : System) : Type 0 where
  call :
      (i : ℕ) (u : Update) (us : List Update)
      → i < n
      → s.rest i ≡ u ∷ us
      → perform (some s.cell) u ≡ some t.cell
      → t.rest ≡ update s.rest i us
      → Step n s t

pub data Reach (n : ℕ) (s : System) : System → Type 0 where
  here : Reach n s s
  next : {t u : System} → Reach n s t → Step n t u → Reach n s u

-- All that the threads below `n` have still to add.
abbrev pub pending : ℕ → System → ℕ
pending n s = sum_below deltas n s.rest

-- The value that the cell will end with.
abbrev pub outcome : ℕ → System → ℕ
outcome n s = (s.cell.value + pending n s) % 2 ^ 32

perform_value :
    (a b : AtomicInt) (u : Update)
    → perform (some a) u ≡ some b
    → b.value ≡ (a.value + delta u) % 2 ^ 32
unfolding perform add sub
perform_value a b (plus v order) h = ground arith
perform_value a b (minus v order) h = ground arith

Step-outcome : (n : ℕ) (s t : System) → Step n s t → outcome n t ≡ outcome n s
Step-outcome n s t (call i u us hi hr hp ht) = omega (
  arith,
  perform_value s.cell t.cell u hp,
  sum_below-update deltas n s.rest i us hi,
  ap deltas hr,
  ap (sum_below deltas n) ht,
)

Reach-outcome : {n : ℕ} {s t : System} → Reach n s t → outcome n t ≡ outcome n s
Reach-outcome here = refl
Reach-outcome {n} (next {t} {u} r st) = Step-outcome n t u st ∙ Reach-outcome r

-- No update is lost: however the calls of `n` threads interleave, once every thread has made all of
-- its calls the cell holds the start value plus everything added less everything subtracted, modulo
-- 2^32.
pub updates_all_count :
    {n : ℕ} {s t : System}
    → t.cell.value < 2 ^ 32
    → Reach n s t
    → ((i : ℕ) → i < n → t.rest i ≡ [])
    → t.cell.value ≡ (s.cell.value + sum_below deltas n s.rest) % 2 ^ 32
updates_all_count {n} {s} {t} w r done =
    omega (arith, Reach-outcome r, sum_below-eq_zero deltas n t.rest (λ i p. ap deltas (done i p)))
