-- ===== src/Atomic/Word.antt =====
-- The arithmetic of src/tt_atomic.c as a client reads it, on signed numbers, and the two outcomes of
-- a compare-and-exchange.
use tinytools.Prelude.{
  ℕ, ◌-◌, ◌^◌, ◌<◌, ◌≡◌, ◌≢◌, refl, true, false, Option, none, some, ltb, if◌then◌else◌, arith, ◌⊎◌,
  inl, inr, ℕ_discrete,
}
use tinytools.Prelude.Int.{ℤ, pos, negsuc, ◌+ℤ◌, ◌-ℤ◌, ◌≤ℤ◌}
use tinytools.Atomic.{AtomicInt, load, add, sub, compare_exchange}
use tinytools.Atomic.Order.{MemoryOrder}

-- The number that the pattern of an `int32_t` stands for.
abbrev pub signed32 : ℕ → ℤ
signed32 w = if ltb w (2 ^ 31) then pos w else negsuc (2 ^ 32 - w - 1)

-- The value that a pointer's cell holds; of NULL none.
abbrev pub value_at : Option AtomicInt → Option ℕ
value_at (some a) = some a.value
value_at none = none

abbrev InRange : ℤ → Type 0
InRange z = (negsuc (2 ^ 31 - 1) ≤ℤ z) × (z ≤ℤ pos (2 ^ 31 - 1))

module _ (a : AtomicInt) (v : ℕ) (order : MemoryOrder) (ha : a.value < 2 ^ 32)
    (hv : v < 2 ^ 32) where
  -- Where the sum of the two signed numbers is an `int32_t`, the cell then holds it; the result is
  -- the number held before.
  pub add_signed :
      InRange (signed32 a.value +ℤ signed32 v)
      → let (old, a') = add (some a) v order in
        (old ≡ a.value) × (signed32 (load a' order) ≡ signed32 a.value +ℤ signed32 v)
  unfolding add load ◌+ℤ◌
  add_signed h = ground arith

  -- Likewise the difference.
  pub sub_signed :
      InRange (signed32 a.value -ℤ signed32 v)
      → let (old, a') = sub (some a) v order in
        (old ≡ a.value) × (signed32 (load a' order) ≡ signed32 a.value -ℤ signed32 v)
  unfolding sub load ◌-ℤ◌
  sub_signed h = ground arith

  -- Subtracting what was added restores the value, also where the sum wrapped, and so the other way
  -- round; the second call returns what the first left.
  pub add-sub :
      (let (x, b) = add (some a) v order in sub b v order ≡ (load b order, some a))
      × (let (x, b) = sub (some a) v order in add b v order ≡ (load b order, some a))
  unfolding add sub load
  add-sub = (ground arith, ground arith)

-- Compare-and-exchange on every branch. Either the cell holds the expected value, and the call stores
-- the desired one and leaves `*expected` alone; or it holds another, and the call stores nothing and
-- reports that value in `*expected`, so that the same call once more succeeds. With a NULL it touches
-- nothing.
pub compare_exchange_cases :
    (a : AtomicInt) (expected desired : ℕ) (order : MemoryOrder)
    → let (done, expected', a') = compare_exchange (some a) (some expected) desired order in
      ((a.value ≡ expected)
          × (done ≡ true)
          × (expected' ≡ some expected)
          × (value_at a' ≡ some desired)
        ⊎ (a.value ≢ expected)
          × (done ≡ false)
          × (a' ≡ some a)
          × (compare_exchange a' expected' desired order
              ≡ (true, some a.value, some (record { value = desired }))))
      × (compare_exchange none (some expected) desired order ≡ (false, some expected, none))
      × (compare_exchange (some a) none desired order ≡ (false, none, some a))
unfolding compare_exchange
compare_exchange_cases a expected desired order = elim (ℕ_discrete a.value expected) [
  | yes e ↦ (inl (ground arith), refl, refl)
  | no ne ↦ (inr (ground arith), refl, refl)
]
