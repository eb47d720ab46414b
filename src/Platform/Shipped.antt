-- ===== src/Platform/Shipped.antt =====
-- src/platform/tt_platform.c as the Makefile builds it. It defines TT_TARGET_LINUX, but the `#if` lines
-- test TT_PLATFORM_LINUX, TT_PLATFORM_ARDUINO and TT_PLATFORM_FREERTOS, which are enumerators of
-- include/tt_platform.h and no macros.
use tinytools.Prelude.{◌≡◌, refl, false, Option, none, some, List, [], ◌∷◌, map}
use tinytools.Types.{TtError, not_initialized, platform_not_supported}
use tinytools.Platform.{
  PlatformInfo, no_info, Platform, Macros, Sources, Call, inits, cleans_up, gets_info,
  gets_info_null, select, select_init, init, cleanup, get_info, step, run,
}

-- The macros of every build of the Makefile.
abbrev pub shipped : Macros
shipped = record {
  tt_platform_linux = false;
  tt_platform_arduino = false;
  tt_platform_freertos = false;
}

-- What each call returns then.
abbrev pub refusal : Call → TtError × Option PlatformInfo
refusal inits = (platform_not_supported, none)
refusal cleans_up = (not_initialized, none)
refusal gets_info = (not_initialized, some no_info)
refusal gets_info_null = (not_initialized, none)

step_refused :
    {World : Type 0} (s : Sources World) (c : Call) (p : Platform World)
    → p.initialized ≡ false
    → step (select shipped s) c p ≡ (refusal c, p)
unfolding step init cleanup get_info select select_init
step_refused s inits p h = rw h refl
step_refused s cleans_up p h = rw h refl
step_refused s gets_info p h = rw h refl
step_refused s gets_info_null p h = rw h refl

-- With the macros of the Makefile and a module that is not initialised, no sequence of calls
-- initialises it: every `init` returns PLATFORM_NOT_SUPPORTED, every other call NOT_INITIALIZED, and
-- nothing is written, whatever the ports do.
pub run_refused :
    {World : Type 0} (s : Sources World) (cs : List Call) (p : Platform World)
    → p.initialized ≡ false
    → run (select shipped s) cs p ≡ (map refusal cs, p)
unfolding run
run_refused s [] p h = refl
run_refused s (c ∷ cs) p h = rw (step_refused s c p h, run_refused s cs p h) refl
