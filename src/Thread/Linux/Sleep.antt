-- ===== src/Thread/Linux/Sleep.antt =====
-- The time that `tt_platform_thread_sleep` of src/platform/linux/tt_platform_linux.c asks for.
use tinytools.Prelude.{ℕ, ◌+◌, ◌*◌, ◌^◌, ◌<◌, ◌≡◌, arith}
use tinytools.Thread.Linux.{timespec}

-- The nanoseconds are a valid `tv_nsec`, below a second, although they are computed in 32 bits; and
-- the two parts together are exactly the milliseconds asked for.
pub timespec_exact :
    (ms : ℕ)
    → let (tv_sec, tv_nsec) = timespec ms in
      (tv_nsec < 10 ^ 9) × (tv_sec * 10 ^ 9 + tv_nsec ≡ ms * 10 ^ 6)
unfolding timespec
timespec_exact ms = omega arith
