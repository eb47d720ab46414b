-- ===== src/Platform/Examples.antt =====
-- A Linux system with four processors; and the theorems at concrete states.
use tinytools.Prelude.{
  ◌≡◌, ◌≢◌, ◌⊎◌, refl, Bool, true, false, Option, none, some, List, [], ◌∷◌, if◌then◌else◌,
}
use tinytools.Prelude.Int.{pos}
use tinytools.Types.{
  TtError, success, platform_init, not_initialized, already_initialized, platform_not_supported,
}
use tinytools.Platform.{
  PlatformInfo, no_info, x64, Platform, Sources, Call, inits, cleans_up, gets_info, select, run,
}
use tinytools.Platform.Ports.{
  LinuxSystem, LinuxTarget, SysInfo, linux_init, linux_info, linux_port, linux_cleanup,
  arduino_port, freertos_port,
}
use tinytools.Platform.Ports.Laws.{linux-Keeps, Described, linux_init_cases}
use tinytools.Platform.Refine.{abstract, Spec, run_refines_description}
use tinytools.Platform.Shipped.{shipped, run_refused}

abbrev memory : SysInfo
memory = record { totalram = 4096; freeram = 1024 }

-- `sysinfo` answers if the world is `true`.
abbrev os : LinuxSystem
os = record {
  World = Bool;
  sysinfo = λ up. (if up then 0 else 1, memory, up);
  processors_online = λ _. pos 4;
  priority_min = λ _. pos 0;
  priority_max = λ _. pos 0;
}

abbrev target : LinuxTarget
target = record { arch = x64; sc_thread_stack_min = 75 }

abbrev start : Platform Bool
start = record { info = no_info; initialized = false; world = true }

abbrev calls : List Call
calls = gets_info ∷ inits ∷ inits ∷ gets_info ∷ cleans_up ∷ cleans_up ∷ []

run_refines_description_example :
    ◌≡◌ {A = List (TtError × Option PlatformInfo) × Spec (linux_port os target)}
      (
        (run (some (linux_port os target)) calls start).0,
        abstract (linux_port os target) (run (some (linux_port os target)) calls start).1,
      )
      (
        (not_initialized, some no_info)
            ∷ (success, none)
            ∷ (already_initialized, none)
            ∷ (success, some (linux_info os target memory true))
            ∷ (success, none)
            ∷ (not_initialized, none)
            ∷ [],
        (none, true),
      )
unfolding linux_init linux_cleanup
run_refines_description_example =
    run_refines_description (linux_port os target) (linux-Keeps os target) calls start (λ e. refl)

linux_init_cases_example :
    ((os.sysinfo true).0 ≡ 0)
      × ((j : PlatformInfo) × (linux_init os target (some no_info) true ≡ (success, some j, true))
          × Described os target memory true j)
    ⊎ ((os.sysinfo true).0 ≢ 0)
      × (linux_init os target (some no_info) true ≡ (platform_init, some no_info, true))
linux_init_cases_example = linux_init_cases os target no_info true

abbrev sources : Sources Bool
sources = record {
  for_linux = linux_port os target;
  for_arduino = arduino_port (record { f_cpu = 16000000; ramend = 2303; flashend = 32767 });
  for_freertos = freertos_port (record {
    cpu_clock_hz = 100000000;
    minimal_stack_size = 128;
    total_heap_size = 49152;
    max_priorities = 5;
  });
}

run_refused_example :
    run (select shipped sources) (inits ∷ gets_info ∷ []) start
    ≡ ((platform_not_supported, none) ∷ (not_initialized, some no_info) ∷ [], start)
run_refused_example = run_refused sources (inits ∷ gets_info ∷ []) start refl
