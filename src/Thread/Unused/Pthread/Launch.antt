-- ===== src/Thread/Unused/Pthread/Launch.antt =====
-- The pthread part of `tt_thread_create` in src/tt_thread.c, lines 226 to 251: the memory that it leaves.
use tinytools.Prelude.{
  ℕ, ◌≡◌, ◌≢◌, ◌⊎◌, inl, inr, refl, sym, ◌∙◌, Bool, true, false, none, some, ◌==◌, ltb, arith,
  ℕ_discrete, Bool-cases,
}
use tinytools.Prelude.Threads.{update, update_self, update_ne}
use tinytools.Types.{TtError, success, memory, thread_create}
use tinytools.ThreadTable.Calls.{nonzero, is_zero}
use tinytools.Thread.Data.{Thread, System}
use tinytools.Thread.Unused.{Outcome, starts, frees}
use tinytools.Thread.Unused.Pthread.{World, prepare, launch, start, free_handle}
use tinytools.Thread.Unused.Pthread.Laws.{HeapLaws}

-- A cell that is taken and given back, and the same for what is allocated.
pub taken_back :
    {A : Type 0} (at : ℕ → A) (b : ℕ) (x y : A) (c : ℕ)
    → at b ≡ y
    → update (update at b x) b y c ≡ at c
taken_back at b x y c e = elim (ℕ_discrete b c) [
  | yes same ↦ rw (sym same) (update_self (update at b x) b y ∙ sym e)
  | no n ↦ update_ne (update at b x) b y c n ∙ update_ne at b x c n
]

module _ (sys : System) (routine : ℕ) (laws : HeapLaws sys) where
  abbrev pub live : World sys routine → ℕ → Bool
  live w = laws.live w.system

  -- The thread was not started: its cell is freed, and the memory is as before but for that.
  pub record GivenUp (a : ℕ) (w : World sys routine) (r : Outcome × World sys routine)
      : Type 0 where
    pub error : TtError
    pub last : World sys routine
    pub result : r ≡ (frees error, last)
    pub bad : error ≢ success
    pub same_cells : (b : ℕ) → last.cells b ≡ w.cells b
    pub freed : (b : ℕ) → live last b ≡ update (live w) a false b

  -- The thread was started, and its handle is in a cell that was not in use.
  pub record Launched (w : World sys routine) (r : Outcome × World sys routine) : Type 0 where
    pub handle : ℕ
    pub pthread : ℕ
    pub last : World sys routine
    pub result : r ≡ (starts handle, last)
    pub fresh : live w handle ≡ false
    pub cells : (b : ℕ) → last.cells b ≡ update w.cells handle (some pthread) b
    pub taken : (b : ℕ) → live last b ≡ update (live w) handle true b

  pub prepare_live :
      (t : Thread) (w : sys.World) (b : ℕ) → laws.live (prepare sys routine t w) b ≡ laws.live w b
  unfolding prepare
  prepare_live t w b = elim (Bool-cases (ltb 0 t.stack_size)) [
    | inl yes_size ↦ rw yes_size (
        laws.setstacksize_live t.stack_size (sys.pthread_attr_init w).1 b ∙ laws.attr_init_live w b)
    | inr no_size ↦ rw no_size (laws.attr_init_live w b)
  ]

  -- A handle that is detached and freed, and then its thread.
  pub released_live :
      (a h p : ℕ) (w : sys.World)
      → laws.live w h ≡ true
      → laws.live w a ≡ true
      → h ≢ a
      → (c : ℕ)
      → laws.live (sys.free a (sys.free h (sys.pthread_detach p w).1)) c
        ≡ update (update (laws.live w) h false) a false c
  released_live a h p w handle_there there ne c =
      let w' = (sys.pthread_detach p w).1 in
      let same = laws.detach_live p w in
      let freed_h = laws.free_cell h w' (same h ∙ handle_there) in
      let still = freed_h a ∙ update_ne (laws.live w') h false a ne ∙ same a ∙ there in
      ground (arith, laws.free_cell a (sys.free h w') still c, freed_h c, same c)

  -- With the cell `b` for the handle, in the world `w'`, from the world `w` before it was taken.
  launch_cases :
      (a b : ℕ) (w w' : World sys routine)
      → live w a ≡ true
      → live w b ≡ false
      → w.cells b ≡ none
      → ((c : ℕ) → w'.cells c ≡ w.cells c)
      → ((c : ℕ) → live w' c ≡ update (live w) b true c)
      → GivenUp a w (launch sys routine a b w') ⊎ Launched w (launch sys routine a b w')
  unfolding launch free_handle
  launch_cases a b w w' here free vacant same_cells taken =
      let (result, pthread, v) = sys.pthread_create routine a w'.system in
      let v' = sys.pthread_attr_destroy v in
      let kept : (c : ℕ) → laws.live v' c ≡ update (live w) b true c =
        λ c. laws.attr_destroy_live v c ∙ laws.create_live routine a w'.system c ∙ taken c in
      let there : laws.live v' b ≡ true = kept b ∙ update_self (live w) b true in
      let ne : b ≢ a = λ e. absurd (ground arith) in
      let freed_b = laws.free_cell b v' there in
      let still : laws.live (sys.free b v') a ≡ true =
        freed_b a
        ∙ update_ne (laws.live v') b false a ne
        ∙ kept a
        ∙ update_ne (live w) b true a ne
        ∙ here in
      let freed_a = laws.free_cell a (sys.free b v') still in
      elim (Bool-cases (result == 0)) [
        | inl ok ↦ rw ok (
            inr (record {
              handle = b;
              pthread = pthread;
              last = record { system = v'; cells = update w'.cells b (some pthread) };
              result = refl;
              fresh = free;
              cells = λ c. ground (arith, same_cells c);
              taken = kept;
            }))
        | inr failed ↦ rw failed (
            inl (record {
              error = thread_create;
              last = record {
                system = sys.free a (sys.free b v');
                cells = update (update w'.cells b (some pthread)) b none;
              };
              result = refl;
              bad = λ e. absurd (ground arith);
              same_cells = λ c. ground (arith, same_cells c);
              freed = λ c. ground (arith, freed_a c, freed_b c, kept c);
            }))
      ]

  pub start_cases :
      (a : ℕ) (t : Thread) (w : World sys routine)
      → live w a ≡ true
      → ((b : ℕ) → live w b ≡ false → w.cells b ≡ none)
      → GivenUp a w (start sys routine a t w) ⊎ Launched w (start sys routine a t w)
  unfolding start
  start_cases a t w here vacant =
      let u = prepare sys routine t w.system in
      let (b, v) = sys.malloc u in
      elim (ℕ_discrete b 0) [
        | yes null ↦
            let same : (c : ℕ) → laws.live v c ≡ live w c =
              λ c. laws.malloc_null u null c ∙ prepare_live t w.system c in
            rw (is_zero b null) (
              inl (record {
                error = memory;
                last = record w { system = sys.pthread_attr_destroy (sys.free a v) };
                result = refl;
                bad = λ e. absurd (ground arith);
                same_cells = λ c. refl;
                freed = λ c. ground (
                  arith,
                  laws.attr_destroy_live (sys.free a v) c,
                  laws.free_cell a v (same a ∙ here) c,
                  same c,
                );
              }))
        | no n ↦
            let (free, taken) = laws.malloc_cell u n in
            let free' : live w b ≡ false = sym (prepare_live t w.system b) ∙ free in
            rw (nonzero b n) (
              launch_cases a b w (record w { system = v }) here free' (vacant b free') (λ c. refl)
                (λ c. ground (arith, taken c, prepare_live t w.system c)))
      ]
