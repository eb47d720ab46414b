-- ===== src/Platform/Ports.antt =====
-- `tt_platform_linux_init`, `tt_platform_arduino_init` and `tt_platform_freertos_init`, their
-- `cleanup`, and `tt_platform_mem_init` and `tt_platform_mem_get_free` of
-- src/platform/linux/tt_platform_linux.c.
pub mod Laws
use Prim.Native.Nat.{bit_or}
use tinytools.Prelude.{
  ℕ, ◌+◌, ◌-◌, ◌*◌, ◌%◌, ◌≡◌, ◌≢◌, ◌⊎◌, inl, inr, refl, Bool, true, false, Option, none, some, ◌==◌,
  not, if◌then◌else◌, arith, ℕ_discrete,
}
use tinytools.Prelude.Int.{ℤ, pos, negsuc, ◌-ℤ◌}
use tinytools.Types.{TtError, success, null_pointer, platform_init}
use tinytools.Platform.{linux, arduino, freertos, ArchType, unknown_arch, avr, PlatformInfo, Port}

-- `tt_platform_caps_t`
pub data Capability : Type 0 where
  threads mutexes semaphore tls atomic irqs timers dma : Capability

abbrev pub bit : Capability → ℕ
bit threads = 1
bit mutexes = 2
bit semaphore = 4
bit tls = 8
bit atomic = 16
bit irqs = 32
bit timers = 64
bit dma = 128

-- The conversion to `uint8_t`.
abbrev pub to_uint8 : ℤ → ℕ
to_uint8 (pos n) = n % 256
to_uint8 (negsuc n) = 255 - n % 256

-- The fields of `struct sysinfo` that are read.
pub record SysInfo : Type 0 where
  pub totalram : ℕ
  pub freeram : ℕ

-- What the Linux port asks the system: `sysinfo` returns its `int` and fills the structure in.
pub record LinuxSystem : Type 1 where
  pub World : Type 0
  pub sysinfo : World → ℕ × SysInfo × World
  pub processors_online : World → ℤ
  pub priority_min : World → ℤ
  pub priority_max : World → ℤ

-- What the compiler fixes: the architecture, and the number of the name `_SC_THREAD_STACK_MIN`.
pub record LinuxTarget : Type 0 where
  pub arch : ArchType
  pub sc_thread_stack_min : ℕ

module _ (os : LinuxSystem) (target : LinuxTarget) where
  -- What `tt_platform_linux_init` writes: every field.
  abbrev pub linux_info : SysInfo → os.World → PlatformInfo
  linux_info si w1 = record {
    platform_type = linux;
    arch_type = target.arch;
    capabilities =
        bit_or
          (bit_or (bit_or (bit_or (bit_or (bit threads) (bit mutexes)) (bit semaphore)) (bit tls))
            (bit atomic))
          (bit timers);
    system = record {
      cpu_frequency = 0;
      ram_size = si.totalram;
      flash_size = 0;
      core_count = to_uint8 (os.processors_online w1);
    };
    thread = record {
      min_stack_size = target.sc_thread_stack_min;
      max_stack_size = 8 * 1024 * 1024;
      max_priority = os.priority_max w1;
      min_priority = os.priority_min w1;
    };
    irq = record { irq_levels = 0; nested_irq = false };
  }

  unfoldable pub linux_init :
      Option PlatformInfo → os.World → TtError × Option PlatformInfo × os.World
  linux_init none w = (null_pointer, none, w)
  linux_init (some i) w =
      let (status, si, w1) = os.sysinfo w in
      if not (status == 0)
      then (platform_init, some i, w1)
      else (success, some (linux_info si w1), w1)

  unfoldable pub linux_cleanup : os.World → TtError × os.World
  linux_cleanup w = (success, w)

  pub mem_init : os.World → TtError × os.World
  mem_init w = (success, w)

  pub mem_get_free : os.World → ℕ × os.World
  mem_get_free w =
      let (status, si, w1) = os.sysinfo w in if not (status == 0) then (0, w1) else (si.freeram, w1)

  -- The port that the platform module calls.
  abbrev pub linux_port : Port os.World
  linux_port = record { port_init = linux_init; port_cleanup = linux_cleanup }

-- The macros of Arduino.h that the Arduino port reads.
pub record ArduinoMacros : Type 0 where
  pub f_cpu : ℕ
  pub ramend : ℕ
  pub flashend : ℕ

module _ {World : Type 0} (d : ArduinoMacros) where
  -- The `thread` part is left as it is.
  pub arduino_init : Option PlatformInfo → World → TtError × Option PlatformInfo × World
  arduino_init none w = (null_pointer, none, w)
  arduino_init (some i) w = (
    success,
    some (record i {
      platform_type = arduino;
      arch_type = avr;
      capabilities = bit_or (bit irqs) (bit timers);
      system = record {
        cpu_frequency = d.f_cpu;
        ram_size = d.ramend + 1;
        flash_size = d.flashend + 1;
        core_count = 1;
      };
      irq = record { irq_levels = 1; nested_irq = false };
    }),
    w,
  )

  pub arduino_cleanup : World → TtError × World
  arduino_cleanup w = (success, w)

  abbrev pub arduino_port : Port World
  arduino_port = record { port_init = arduino_init; port_cleanup = arduino_cleanup }

-- The macros of FreeRTOSConfig.h that the FreeRTOS port reads.
pub record FreertosMacros : Type 0 where
  pub cpu_clock_hz : ℕ
  pub minimal_stack_size : ℕ
  pub total_heap_size : ℕ
  pub max_priorities : ℕ

module _ {World : Type 0} (d : FreertosMacros) where
  -- The `irq` part is left as it is.
  pub freertos_init : Option PlatformInfo → World → TtError × Option PlatformInfo × World
  freertos_init none w = (null_pointer, none, w)
  freertos_init (some i) w = (
    success,
    some (record i {
      platform_type = freertos;
      arch_type = unknown_arch;
      capabilities =
          bit_or (bit_or (bit_or (bit threads) (bit mutexes)) (bit semaphore)) (bit timers);
      system = record {
        cpu_frequency = d.cpu_clock_hz;
        ram_size = 0;
        flash_size = 0;
        core_count = 1;
      };
      thread = record {
        min_stack_size = d.minimal_stack_size;
        max_stack_size = d.total_heap_size;
        max_priority = pos d.max_priorities -ℤ pos 1;
        min_priority = pos 0;
      };
    }),
    w,
  )

  pub freertos_cleanup : World → TtError × World
  freertos_cleanup w = (success, w)

  abbrev pub freertos_port : Port World
  freertos_port = record { port_init = freertos_init; port_cleanup = freertos_cleanup }
