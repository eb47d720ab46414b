-- ===== src/Platform.antt =====
-- src/platform/tt_platform.c, include/tt_platform.h and the part of
-- src/platform/linux/tt_platform_linux.c, src/platform/arduino/tt_platform_arduino.c and
-- src/platform/freertos/tt_platform_freertos.c that describes a platform. What the operating system
-- answers is a parameter.
pub mod Ports
pub mod Refine
pub mod Shipped
mod Examples
use tinytools.Prelude.{
  ℕ, ◌-◌, ◌%◌, ◌≡◌, Bool, true, false, Option, none, some, List, [], ◌∷◌, not, if◌then◌else◌,
  is_null,
}
use tinytools.Prelude.Int.{ℤ, pos, negsuc}
use tinytools.Mutex.{pointee}
use tinytools.Types.{
  TtError, success, null_pointer, not_initialized, already_initialized, platform_not_supported,
  is_success,
}

-- `tt_platform_type_t`, with the enumerators of every target.
pub data PlatformType : Type 0 where
  unknown_platform linux windows macos arduino freertos baremetal : PlatformType

-- `tt_arch_type_t`
pub data ArchType : Type 0 where
  unknown_arch x86 x64 arm arm64 avr riscv : ArchType

-- The three inner structures of `tt_platform_info_t`, and itself.
pub record SystemInfo : Type 0 where
  pub cpu_frequency : ℕ
  pub ram_size : ℕ
  pub flash_size : ℕ
  pub core_count : ℕ

pub record ThreadInfo : Type 0 where
  pub min_stack_size : ℕ
  pub max_stack_size : ℕ
  pub max_priority : ℤ
  pub min_priority : ℤ

pub record IrqInfo : Type 0 where
  pub irq_levels : ℕ
  pub nested_irq : Bool

pub record PlatformInfo : Type 0 where
  pub platform_type : PlatformType
  pub arch_type : ArchType
  pub capabilities : ℕ
  pub system : SystemInfo
  pub thread : ThreadInfo
  pub irq : IrqInfo

-- What `memset(…, 0, …)` and static storage leave.
abbrev pub no_info : PlatformInfo
no_info = record {
  platform_type = unknown_platform;
  arch_type = unknown_arch;
  capabilities = 0;
  system = record { cpu_frequency = 0; ram_size = 0; flash_size = 0; core_count = 0 };
  thread = record {
    min_stack_size = 0;
    max_stack_size = 0;
    max_priority = pos 0;
    min_priority = pos 0;
  };
  irq = record { irq_levels = 0; nested_irq = false };
}

-- A port: its `init`, on the structure that it is given, and its `cleanup`, in a world that they may
-- change.
pub record Port (World : Type 0) : Type 0 where
  pub port_init : Option PlatformInfo → World → TtError × Option PlatformInfo × World
  pub port_cleanup : World → TtError × World

-- A port that writes the structure only when it succeeds, and then writes it.
abbrev pub Keeps : {World : Type 0} → Port World → Type 0
Keeps {World} port =
    (i : PlatformInfo) (w : World)
    → is_success (port.port_init (some i) w).0 ≡ false
    → pointee i (port.port_init (some i) w).1 ≡ i

-- `platform_info`, `platform_initalized`, and the world.
pub record Platform (World : Type 0) : Type 0 where
  pub info : PlatformInfo
  pub initialized : Bool
  pub world : World

-- Which of the macros that the `#if` lines test are defined.
pub record Macros : Type 0 where
  pub tt_platform_linux : Bool
  pub tt_platform_arduino : Bool
  pub tt_platform_freertos : Bool

-- A call from outside.
pub data Call : Type 0 where
  inits cleans_up gets_info gets_info_null : Call

-- The three ports that the `#if` lines choose from.
pub record Sources (World : Type 0) : Type 0 where
  pub for_linux : Port World
  pub for_arduino : Port World
  pub for_freertos : Port World

module _ {World : Type 0} where
  -- The `#if` lines: without a port the result is PLATFORM_NOT_SUPPORTED.
  unfoldable pub select : Macros → Sources World → Option (Port World)
  select d s =
      if d.tt_platform_linux
      then some s.for_linux
      else if d.tt_platform_arduino
      then some s.for_arduino
      else if d.tt_platform_freertos
      then some s.for_freertos
      else none

  unfoldable pub select_init : Option (Port World) → Platform World → TtError × Platform World
  select_init none p = (platform_not_supported, p)
  select_init (some port) p =
      let (err, i, w) = port.port_init (some p.info) p.world in
      (err, record p { info = pointee p.info i; world = w })

  unfoldable pub select_cleanup : Option (Port World) → Platform World → TtError × Platform World
  select_cleanup none p = (platform_not_supported, p)
  select_cleanup (some port) p =
      let (err, w) = port.port_cleanup p.world in (err, record p { world = w })

  -- `tt_platfor_init`, as it is spelled.
  pub init : Option (Port World) → Platform World → TtError × Platform World
  init port p =
      if p.initialized
      then (already_initialized, p)
      else let (err, p') = select_init port p in
        if not (is_success err) then (err, p') else (success, record p' { initialized = true })

  pub cleanup : Option (Port World) → Platform World → TtError × Platform World
  cleanup port p =
      if not p.initialized
      then (not_initialized, p)
      else let (err, p') = select_cleanup port p in
        if not (is_success err)
        then (err, p')
        else (success, record p' { info = no_info; initialized = false })

  -- The caller's structure, or NULL.
  pub get_info : Option PlatformInfo → Platform World → TtError × Option PlatformInfo
  get_info out p =
      if not p.initialized
      then (not_initialized, out)
      else if is_null out
      then (null_pointer, out)
      else (success, some p.info)

  -- One call: what it returns, with the structure that `tt_platform_get_info` fills in.
  pub step :
      Option (Port World) → Call → Platform World → (TtError × Option PlatformInfo) × Platform World
  step port inits p = let (e, p') = init port p in ((e, none), p')
  step port cleans_up p = let (e, p') = cleanup port p in ((e, none), p')
  step port gets_info p = (get_info (some no_info) p, p)
  step port gets_info_null p = (get_info none p, p)

  pub run :
      Option (Port World)
      → List Call
      → Platform World
      → List (TtError × Option PlatformInfo) × Platform World
  run port [] p = ([], p)
  run port (c ∷ cs) p =
      let (r, p') = step port c p in let (rs, p'') = run port cs p' in (r ∷ rs, p'')
