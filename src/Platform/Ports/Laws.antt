-- ===== src/Platform/Ports/Laws.antt =====
-- What the three ports of src/platform keep, and what the Linux port reports.
use Prim.Native.Nat.{bit_and}
use tinytools.Prelude.{
  ap, dec_lt, ◌≤◌, ℕ, ◌<◌, ◌≡◌, ◌≢◌, ◌⊎◌, inl, inr, ◌↔◌, refl, some, arith, ℕ_discrete,
}
use tinytools.Prelude.Int.{ℤ, pos, negsuc}
use tinytools.Types.{success, platform_init}
use tinytools.Platform.{Keeps, PlatformInfo, linux}
use tinytools.Platform.Ports.{
  LinuxSystem, LinuxTarget, ArduinoMacros, FreertosMacros, linux_port, arduino_port, freertos_port,
  linux_init, linux_info, arduino_init, freertos_init, to_uint8, Capability, bit, irqs, dma,
  SysInfo,
}

-- The three ports keep that law.
pub linux-Keeps : (os : LinuxSystem) (target : LinuxTarget) → Keeps (linux_port os target)
unfolding linux_init
linux-Keeps os target i w h = ground arith

pub arduino-Keeps : {World : Type 0} (d : ArduinoMacros) → Keeps {World = World} (arduino_port d)
unfolding arduino_init
arduino-Keeps d i w h = ground arith

pub freertos-Keeps : {World : Type 0} (d : FreertosMacros) → Keeps {World = World} (freertos_port d)
unfolding freertos_init
freertos-Keeps d i w h = ground arith

pub to_uint8-lt : (n : ℤ) → to_uint8 n < 256
to_uint8-lt (pos n) = omega arith
to_uint8-lt (negsuc n) = omega arith

-- A count in 8 bits: it is exact, or the number is too large, or negative.
abbrev pub Counted : ℤ → ℕ → Type 0
Counted m count = (m ≡ pos count) ⊎ ((n : ℕ) × (m ≡ pos n) × (256 ≤ n)) ⊎ ((n : ℕ) × (m ≡ negsuc n))

counted : (m : ℤ) → Counted m (to_uint8 m)
counted (pos n) = elim (dec_lt n 256) [
  | yes fits ↦ inl (ap pos (omega arith))
  | no large ↦ inr (inl (n, refl, omega arith))
]
counted (negsuc n) = inr (inr (n, refl))

-- What the Linux port reports of its system and target.
pub record Described (os : LinuxSystem) (target : LinuxTarget) (si : SysInfo) (w : os.World)
    (j : PlatformInfo) : Type 0 where
  pub kind : j.platform_type ≡ linux
  pub capable : (c : Capability) → (bit_and j.capabilities (bit c) ≡ 0) ↔ ((c ≡ irqs) ⊎ (c ≡ dma))
  pub ram : j.system.ram_size ≡ si.totalram
  pub cores : Counted (os.processors_online w) j.system.core_count
  pub bounded : j.system.core_count < 256
  pub priorities :
      (j.thread.min_priority ≡ os.priority_min w) × (j.thread.max_priority ≡ os.priority_max w)
  pub stack : j.thread.min_stack_size ≡ target.sc_thread_stack_min

linux_capable : (c : Capability) → (bit_and 95 (bit c) ≡ 0) ↔ ((c ≡ irqs) ⊎ (c ≡ dma))
linux_capable irqs = ((λ e. inl refl), (λ e. refl))
linux_capable dma = ((λ e. inr refl), (λ e. refl))
linux_capable c = ((λ e. absurd (ground arith)), (λ e. absurd (ground arith)))

-- `tt_platform_linux_init` on a structure: if `sysinfo` answers, it succeeds and the structure
-- describes a Linux system with every capability but interrupts and DMA, the memory and the
-- priorities that the system reports, and the number of processors if that fits 8 bits; the least
-- stack size is the number of the name `_SC_THREAD_STACK_MIN`. If `sysinfo` fails, it fails with
-- PLATFORM_INIT and leaves the structure.
pub linux_init_cases :
    (os : LinuxSystem) (target : LinuxTarget) (i : PlatformInfo) (w : os.World)
    → let (status, si, w1) = os.sysinfo w in
      (status ≡ 0)
        × ((j : PlatformInfo) × (linux_init os target (some i) w ≡ (success, some j, w1))
            × Described os target si w1 j)
      ⊎ (status ≢ 0) × (linux_init os target (some i) w ≡ (platform_init, some i, w1))
unfolding linux_init
linux_init_cases os target i w = elim (ℕ_discrete (os.sysinfo w).0 0) [
  | yes ok ↦ inl (
    ok,
    (
      linux_info os target (os.sysinfo w).1 (os.sysinfo w).2,
      rw ok refl,
      record {
        kind = refl;
        capable = linux_capable;
        ram = refl;
        cores = counted (os.processors_online (os.sysinfo w).2);
        bounded = to_uint8-lt (os.processors_online (os.sysinfo w).2);
        priorities = (refl, refl);
        stack = refl;
      },
    ),
  )
  | no bad ↦ inr (bad, ground arith)
]
