-- ===== src/Mutex/Spin/Samples.antt =====
-- Two states of the general mutex of src/tt_mutex.c.
use tinytools.Prelude.{true}
use tinytools.Mutex.Spin.{SpinMutex}

abbrev pub free_mutex : SpinMutex
free_mutex = record { lock = 0; initialized = true }

abbrev pub held_mutex : SpinMutex
held_mutex = record { lock = 1; initialized = true }
