-- ===== src/Atomic/Examples.antt =====
-- Runs of src/tt_atomic.c, after tests/test_atomic.c, and the theorems at concrete cells.
use tinytools.Prelude.{
  ℕ, zero, suc, ◌+◌, ◌%◌, ◌^◌, ◌<◌, ◌≡◌, refl, some, none, List, [], ◌∷◌, arith,
}
use tinytools.Prelude.Threads.{update, sum_below}
use tinytools.Atomic.{AtomicInt, init, load, store, add, sub}
use tinytools.Atomic.Order.{MemoryOrder}
use tinytools.Atomic.Interleaving.{
  Update, plus, minus, perform, System, Step, call, Reach, here, next, updates_all_count,
}

abbrev seq : MemoryOrder
seq = MemoryOrder.seq_cst

abbrev cell : ℕ → AtomicInt
cell v = record { value = v }

-- INT32_MAX + 1 wraps to INT32_MIN, and the result is the previous value.
add_wraps : add (some (cell 0x7fff_ffff)) 1 seq ≡ (0x7fff_ffff, some (cell 0x8000_0000))
unfolding add
add_wraps = refl

null_refused :
    (load none seq ≡ 1)
    × ((init none 3).1 ≡ none)
    × ((store none 3 seq).1 ≡ none)
    × (add none 3 seq ≡ (1, none))
unfolding load init store add
null_refused = (refl, refl, refl, refl)

-- Two threads, one adding 1 and then 2, the other subtracting 1, in the order 0, 1, 0.
abbrev programs : ℕ → List Update
programs zero = plus 1 seq ∷ plus 2 seq ∷ []
programs (suc zero) = minus 1 seq ∷ []
programs (suc (suc i)) = []

abbrev at_start : System
at_start = record { cell = cell 10; rest = programs }

abbrev after : ℕ → (ℕ → List Update) → System
after v rest = record { cell = cell v; rest = rest }

abbrev rest1 : ℕ → List Update
rest1 = update programs 0 (plus 2 seq ∷ [])

abbrev rest2 : ℕ → List Update
rest2 = update rest1 1 []

abbrev at_end : System
at_end = after 12 (update rest2 0 [])

first : Step 2 at_start (after 11 rest1)
unfolding perform add
first = call 0 (plus 1 seq) (plus 2 seq ∷ []) (omega arith) refl refl refl

second : Step 2 (after 11 rest1) (after 10 rest2)
unfolding perform sub
second = call 1 (minus 1 seq) [] (omega arith) refl refl refl

third : Step 2 (after 10 rest2) at_end
unfolding perform add
third = call 0 (plus 2 seq) [] (omega arith) refl refl refl

run_to_end : Reach 2 at_start at_end
run_to_end = next (next (next here first) second) third

all_made : (i : ℕ) → i < 2 → at_end.rest i ≡ []
all_made zero h = refl
all_made (suc zero) h = refl
all_made (suc (suc i)) h = absurd (omega arith)

updates_all_count_example : ◌≡◌ {A = ℕ} 12 ((10 + (3 + 0xffff_ffff)) % 2 ^ 32)
unfolding sum_below
updates_all_count_example =
    updates_all_count {n = 2} {s = at_start} (omega arith) run_to_end all_made
