-- ===== src/Thread.antt =====
-- Threads: include/tt_thread.h, src/tt_thread.c and the part of src/platform/linux/tt_platform_linux.c
-- that it calls, in the build with TT_CAP_THREADS and TT_TARGET_LINUX.
pub mod Data
pub mod Linux
pub mod Stubs
pub mod Unused
pub mod Api
