-- ===== src/Atomic.antt =====
-- src/tt_atomic.c and include/tt_atomic.h: a 32-bit integer with atomic operations.
-- An `int32_t` is its bit pattern, a number below 2^32; a pointer argument is an `Option`. Each
-- compiler built-in is one step on the cell, and all steps are in one order, whatever order is passed:
-- the order is no constant there, and the compiler of the Makefile then takes the strongest.
pub mod Order
pub mod Word
pub mod Interleaving
mod Examples
use tinytools.Prelude.{
  ℕ, ◌+◌, ◌-◌, ◌%◌, ◌^◌, Bool, true, false, Option, none, some, ◌==◌, if◌then◌else◌,
}
use tinytools.Types.{TtError, success, null_pointer, code}
use Order.{MemoryOrder}

-- `tt_atomic_int_t`
pub record AtomicInt : Type 0 where
  pub value : ℕ

-- The pattern of a sum, and of a difference, in `int32_t`: the built-ins wrap.
abbrev pub add32 : ℕ → ℕ → ℕ
add32 a b = (a + b) % 2 ^ 32

abbrev pub sub32 : ℕ → ℕ → ℕ
sub32 a b = (a + (2 ^ 32 - b % 2 ^ 32)) % 2 ^ 32

pub init : Option AtomicInt → ℕ → TtError × Option AtomicInt
init none v = (null_pointer, none)
init (some a) v = (success, some (record a { value = v }))

-- A NULL pointer is answered by the error code as if it were the value.
pub load : Option AtomicInt → MemoryOrder → ℕ
load none order = code null_pointer
load (some a) order = a.value

pub store : Option AtomicInt → ℕ → MemoryOrder → TtError × Option AtomicInt
store none v order = (null_pointer, none)
store (some a) v order = (success, some (record a { value = v }))

-- The result is the previous value.
pub add : Option AtomicInt → ℕ → MemoryOrder → ℕ × Option AtomicInt
add none v order = (code null_pointer, none)
add (some a) v order = (a.value, some (record a { value = add32 a.value v }))

pub sub : Option AtomicInt → ℕ → MemoryOrder → ℕ × Option AtomicInt
sub none v order = (code null_pointer, none)
sub (some a) v order = (a.value, some (record a { value = sub32 a.value v }))

-- The second part of the result is `*expected` afterwards: the built-in stores what it found.
pub compare_exchange :
    Option AtomicInt → Option ℕ → ℕ → MemoryOrder → Bool × Option ℕ × Option AtomicInt
compare_exchange (some a) (some expected) desired order =
    if a.value == expected
    then (true, some expected, some (record a { value = desired }))
    else (false, some a.value, some a)
compare_exchange a expected desired order = (false, expected, a)

-- `tt_atomic_thread_fence` changes nothing in memory.
pub thread_fence : {Memory : Type 0} → MemoryOrder → Memory → Memory
thread_fence order memory = memory
