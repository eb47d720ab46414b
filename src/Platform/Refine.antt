-- ===== src/Platform/Refine.antt =====
-- src/platform/tt_platform.c over any port that leaves the structure alone where its `init` fails:
-- the module keeps a description of the platform exactly while it is initialised.
use tinytools.Prelude.{
  ◌≡◌, inl, inr, refl, ap, ◌∙◌, true, false, Option, none, some, List, [], ◌∷◌, if◌then◌else◌,
  arith, Bool-cases,
}
use tinytools.Mutex.{pointee}
use tinytools.Types.{
  TtError, success, null_pointer, not_initialized, already_initialized, is_success,
}
use tinytools.Platform.{
  PlatformInfo, no_info, Port, Keeps, Platform, Call, inits, cleans_up, gets_info, gets_info_null,
  select_init, select_cleanup, init, cleanup, get_info, step, run,
}

module _ {World : Type 0} (port : Port World) where
  -- The specification: a description, or nothing.
  abbrev pub Spec : Type 0
  Spec = Option PlatformInfo × World

  abbrev pub spec : Call → Spec → (TtError × Option PlatformInfo) × Spec
  spec inits (some i, w) = ((already_initialized, none), (some i, w))
  spec inits (none, w) =
      let (e, i, w') = port.port_init (some no_info) w in
      ((e, none), (if is_success e then some (pointee no_info i) else none, w'))
  spec cleans_up (none, w) = ((not_initialized, none), (none, w))
  spec cleans_up (some i, w) =
      let (e, w') = port.port_cleanup w in ((e, none), (if is_success e then none else some i, w'))
  spec gets_info (none, w) = ((not_initialized, some no_info), (none, w))
  spec gets_info (some i, w) = ((success, some i), (some i, w))
  spec gets_info_null (none, w) = ((not_initialized, none), (none, w))
  spec gets_info_null (some i, w) = ((null_pointer, none), (some i, w))

  abbrev pub spec_run : List Call → Spec → List (TtError × Option PlatformInfo) × Spec
  spec_run [] s = ([], s)
  spec_run (c ∷ cs) s = let (r, s') = spec c s in let (rs, s'') = spec_run cs s' in (r ∷ rs, s'')

  -- While the module is not initialised, its structure is all 0.
  abbrev pub IsValid : Platform World → Type 0
  IsValid p = p.initialized ≡ false → p.info ≡ no_info

  abbrev pub abstract : Platform World → Spec
  abstract p = (if p.initialized then some p.info else none, p.world)

  -- An initialised module, and one that is not.
  abbrev up : PlatformInfo → World → Platform World
  up i w = record { info = i; initialized = true; world = w }

  abbrev down : World → Platform World
  down w = record { info = no_info; initialized = false; world = w }

  record Refines (r : (TtError × Option PlatformInfo) × Platform World)
      (s : (TtError × Option PlatformInfo) × Spec) : Type 0 where
    reply : r.0 ≡ s.0
    state : abstract r.1 ≡ s.1
    valid : IsValid r.1

  up-Refines :
      (c : Call) (i : PlatformInfo) (w : World)
      → Refines (step (some port) c (up i w)) (spec c (some i, w))
  unfolding step init cleanup select_cleanup get_info
  up-Refines inits i w = record { reply = refl; state = refl; valid = λ e. absurd (ground arith) }
  up-Refines cleans_up i w = record {
    reply = ground arith;
    state = ground arith;
    valid = ground arith;
  }
  up-Refines gets_info i w = record {
    reply = refl;
    state = refl;
    valid = λ e. absurd (ground arith);
  }
  up-Refines gets_info_null i w = record {
    reply = refl;
    state = refl;
    valid = λ e. absurd (ground arith);
  }

  down-Refines :
      Keeps port → (c : Call) (w : World) → Refines (step (some port) c (down w)) (spec c (none, w))
  unfolding step init cleanup select_init get_info
  down-Refines keeps inits w = record {
    reply = ground arith;
    state = ground arith;
    valid = ground (arith, keeps no_info w);
  }
  down-Refines keeps cleans_up w = record { reply = refl; state = refl; valid = λ e. refl }
  down-Refines keeps gets_info w = record { reply = refl; state = refl; valid = λ e. refl }
  down-Refines keeps gets_info_null w = record { reply = refl; state = refl; valid = λ e. refl }

  step-Refines :
      Keeps port
      → (c : Call) (p : Platform World) → IsValid p
      → Refines (step (some port) c p) (spec c (abstract p))
  step-Refines keeps c p v = elim (Bool-cases p.initialized) [
    | inl e ↦ rw e (up-Refines c p.info p.world)
    | inr e ↦ rw (e, v e) (down-Refines keeps c p.world)
  ]

  -- Any sequence of calls is answered as the specification answers it: the port is asked only when the
  -- module is not initialised, and `tt_platform_get_info` copies what it wrote until the module is
  -- cleaned up.
  pub run_refines_description :
      Keeps port
      → (cs : List Call) (p : Platform World) → IsValid p
      → ((run (some port) cs p).0, abstract (run (some port) cs p).1) ≡ spec_run cs (abstract p)
  unfolding run
  run_refines_description keeps [] p v = refl
  run_refines_description keeps (c ∷ cs) p v =
      let r = step-Refines keeps c p v in
      let q = (step (some port) c p).1 in
      let s = (spec c (abstract p)).1 in
      ap (λ x. ((step (some port) c p).0 ∷ x.0, x.1)) (run_refines_description keeps cs q r.valid)
      ∙ ap (λ x. ((step (some port) c p).0 ∷ (spec_run cs x).0, (spec_run cs x).1)) r.state
      ∙ ap (λ v. (v ∷ (spec_run cs s).0, (spec_run cs s).1)) r.reply
