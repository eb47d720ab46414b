-- ===== src/Types.antt =====
-- include/tt_types.h: the error codes of the library, and the integers that stand for them.
use tinytools.Prelude.{ℕ, ◌≡◌, ◌≢◌, refl, Bool, true, false, arith}

-- `tt_error_t`
pub data TtError : Type 0 where
  success null_pointer invalid_param buffer_full buffer_empty memory timeout busy : TtError
  not_initialized platform_specific mutex_error mutex_init mutex_destroy mutex_lock : TtError
  mutex_unlock not_found thread_create thread_join thread_priority thread_sleep : TtError
  thread_active thread_detach platform_init already_initialized : TtError
  platform_not_supported not_implemented unknown : TtError

-- The value of the enumerator, counted from TT_SUCCESS = 0.
abbrev pub code : TtError → ℕ
code success = 0
code null_pointer = 1
code invalid_param = 2
code buffer_full = 3
code buffer_empty = 4
code memory = 5
code timeout = 6
code busy = 7
code not_initialized = 8
code platform_specific = 9
code mutex_error = 10
code mutex_init = 11
code mutex_destroy = 12
code mutex_lock = 13
code mutex_unlock = 14
code not_found = 15
code thread_create = 16
code thread_join = 17
code thread_priority = 18
code thread_sleep = 19
code thread_active = 20
code thread_detach = 21
code platform_init = 22
code already_initialized = 23
code platform_not_supported = 24
code not_implemented = 25
code unknown = 26

-- `error == TT_SUCCESS`
abbrev pub is_success : TtError → Bool
is_success success = true
is_success _ = false

pub code-injective : (a b : TtError) → code a ≡ code b → a ≡ b
code-injective a b h = ground arith

pub is_success-false : (e : TtError) → e ≢ success → is_success e ≡ false
is_success-false success n = absurd (n refl)
is_success-false _ n = refl

pub is_success-true : (e : TtError) → is_success e ≡ true → e ≡ success
is_success-true success h = refl
is_success-true e h = ground arith
