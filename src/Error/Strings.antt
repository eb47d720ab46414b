-- ===== src/Error/Strings.antt =====
-- `tt_error_to_string` of src/tt_error.c: the text of an error code.
use Prim.Native.String.{String}
use text.Mathlib.Text.{◌==◌ as str_eq}
use tinytools.Prelude.{
  ℕ, ◌<◌, ◌≡◌, ◌↔◌, refl, sym, ap, ◌∙◌, Option, none, some, List, [], ◌∷◌, if◌then◌else◌, ◌==◌,
  arith,
}
use tinytools.Types.{
  TtError, code, success, null_pointer, invalid_param, buffer_full, buffer_empty, memory, timeout,
  busy, not_initialized, platform_specific, mutex_error, mutex_init, mutex_destroy, mutex_lock,
  mutex_unlock, not_found, thread_create, thread_join, thread_priority, thread_sleep, thread_active,
  thread_detach, platform_init, already_initialized, platform_not_supported, not_implemented,
  unknown,
}

-- The enumerators of `tt_error_t`, in order.
abbrev all_errors : List TtError
all_errors =
    success ∷ null_pointer ∷ invalid_param ∷ buffer_full ∷ buffer_empty ∷ memory ∷ timeout ∷ busy
    ∷ not_initialized ∷ platform_specific ∷ mutex_error ∷ mutex_init ∷ mutex_destroy ∷ mutex_lock
    ∷ mutex_unlock ∷ not_found ∷ thread_create ∷ thread_join ∷ thread_priority ∷ thread_sleep
    ∷ thread_active ∷ thread_detach ∷ platform_init ∷ already_initialized ∷ platform_not_supported
    ∷ not_implemented ∷ unknown ∷ []

-- The `switch`, on an enumerator.
pub to_string : TtError → String
to_string success = "Success"
to_string null_pointer = "Null pointer"
to_string invalid_param = "Invalid parameter"
to_string buffer_full = "Buffer full"
to_string buffer_empty = "Buffer empty"
to_string memory = "Memory allocation failed"
to_string timeout = "Operation timed out"
to_string busy = "Resource is busy"
to_string not_initialized = "Not initialized"
to_string platform_specific = "Platform specific error"
to_string mutex_error = "Mutex operation failed"
to_string mutex_init = "Mutex initialization failed"
to_string mutex_destroy = "Mutex destroy failed"
to_string mutex_lock = "Failed to lock mutex"
to_string thread_create = "Fail to create thread"
to_string thread_join = "Fail to join thread"
to_string thread_priority = "Fail to set thread priority"
to_string thread_sleep = "Fail to set thread to sleep"
to_string not_found = "Resource not found"
to_string thread_active = "Fail to destroy a thread"
to_string already_initialized = "Resource is already initialized"
to_string platform_not_supported = "Platform not supported"
to_string platform_init = "Fail to initialized platform"
to_string thread_detach = "Fail to detach thread"
to_string not_implemented = "Feature not implemented"
to_string _ = "Unknown error"

-- The first enumerator of a list with a given value.
of_code : ℕ → List TtError → Option TtError
of_code n [] = none
of_code n (e ∷ es) = if code e == n then some e else of_code n es

-- The argument is an `int` in C: a value that is no enumerator takes the default.
unfoldable pub to_string_int : ℕ → String
unfolding of_code to_string
to_string_int n = elim (of_code n all_errors) [ some e ↦ to_string e | none ↦ "Unknown error" ]

-- The first enumerator of a list with a given text.
of_string : String → List TtError → TtError
of_string s [] = unknown
of_string s (e ∷ es) = if str_eq (to_string e) s then e else of_string s es

-- The only enumerator that shares its text: an unlock that failed reads as an unknown error.
abbrev pub shown_as : TtError → TtError
shown_as mutex_unlock = unknown
shown_as e = e

to_string-shown_as : (e : TtError) → to_string (shown_as e) ≡ to_string e
unfolding to_string
to_string-shown_as success = refl
to_string-shown_as e = refl

of_string-to_string : (e : TtError) → of_string (to_string e) (unknown ∷ all_errors) ≡ shown_as e
unfolding of_string to_string
of_string-to_string success = refl
of_string-to_string e = refl

to_string_ne : (a b : TtError) → to_string a ≡ to_string b → shown_as a ≡ shown_as b
to_string_ne a b h =
    sym (of_string-to_string a)
    ∙ ap (λ s. of_string s (unknown ∷ all_errors)) h
    ∙ of_string-to_string b

-- Two error codes have one text exactly when they are equal, but that MUTEX_UNLOCK reads as UNKNOWN.
pub to_string-injective : (a b : TtError) → (to_string a ≡ to_string b) ↔ (shown_as a ≡ shown_as b)
to_string-injective a b =
    (to_string_ne a b, λ h. sym (to_string-shown_as a) ∙ ap to_string h ∙ to_string-shown_as b)

-- On the value of an enumerator `tt_error_to_string` gives its text, and on every greater integer
-- the text of an unknown error.
pub to_string_int-code :
    (e : TtError) (n : ℕ)
    → code unknown < n
    → (to_string_int (code e) ≡ to_string e) × (to_string_int n ≡ to_string unknown)
unfolding to_string_int
to_string_int-code e n h = (on_code e, above n h)
  where
    on_code : (e : TtError) → to_string_int (code e) ≡ to_string e
    on_code success = refl
    on_code e = refl

    above : (n : ℕ) → 26 < n → to_string_int n ≡ to_string unknown
    above n h = ground arith
