-- ===== src/Thread/Unused/Freertos/Join.antt =====
-- The loop of `tt_thread_join` in src/tt_thread.c, lines 297 to 304: when it ends.
use tinytools.Prelude.{
  ℕ, zero, suc, ◌+◌, ◌<◌, ◌≤◌, ◌≡◌, ◌≢◌, ◌⊎◌, inl, inr, refl, ap, ◌∙◌, true, false, none, some,
  arith, dec_lt,
}
use tinytools.Types.{success, thread_active}
use tinytools.Mutex.{MutexApi}
use tinytools.ThreadTable.Calls.{nonzero}
use tinytools.Thread.Data.{running, is_terminated, Thread}
use tinytools.Prelude.Threads.{update_self}
use tinytools.Thread.Unused.{destroy}
use tinytools.Thread.Unused.Freertos.{Kernel, port, Pool, after, write, join_loop, join, resume}

module _ (api : MutexApi) (kernel : Kernel) (routine : ℕ)
    (others : ℕ → Pool api kernel routine → Pool api kernel routine) where
  -- The state that the loop finds `n` rounds after it found `s` at the start of round `i`.
  unfoldable pub found : ℕ → ℕ → Pool api kernel routine → Pool api kernel routine
  found i zero s = s
  found i (suc n) s =
      found (i + 1) n (others i (after api kernel routine s (kernel.task_delay 1 s.world)))

  -- The thread is there and has not ended.
  abbrev pub IsAlive : ℕ → Pool api kernel routine → Type 0
  IsAlive a s = (t : Thread) × (s.heap a ≡ some t) × (is_terminated t.state ≡ false)

  loop_ends :
      (a k i fuel : ℕ) (s : Pool api kernel routine)
      → k < fuel
      → ((m : ℕ) → m < k → IsAlive a (found i m s))
      → (t : Thread) → (found i k s).heap a ≡ some t
      → is_terminated t.state ≡ true
      → join_loop api kernel routine others i fuel a s ≡ some (t.retval, found i k s)
  unfolding found join_loop
  loop_ends a k i zero s h alive t held dead = absurd (omega arith)
  loop_ends a zero i (suc fuel) s h alive t held dead = rw (held, dead) refl
  loop_ends a (suc k) i (suc fuel) s h alive t held dead =
      let s' = others i (after api kernel routine s (kernel.task_delay 1 s.world)) in
      let (u, here, going) = alive 0 (omega arith) in
      rw (here, going)
        (loop_ends a k (i + 1) fuel s' (omega arith) (λ m p. alive (suc m) (omega arith)) t held
          dead)

  -- As long as the loop finds the thread alive, it does not end.
  loop_waits :
      (a fuel i : ℕ) (s : Pool api kernel routine)
      → ((m : ℕ) → m < fuel → IsAlive a (found i m s))
      → join_loop api kernel routine others i fuel a s ≡ none
  unfolding found join_loop
  loop_waits a zero i s alive = refl
  loop_waits a (suc fuel) i s alive =
      let s' = others i (after api kernel routine s (kernel.task_delay 1 s.world)) in
      let (u, here, going) = alive 0 (omega arith) in
      rw (here, going) (loop_waits a fuel (i + 1) s' (λ m p. alive (suc m) (omega arith)))

  -- `tt_thread_join` on FreeRTOS, of a thread that other tasks leave on the heap until it has ended, and
  -- that is found ended after `k` delays and at no earlier one: with more than `k` rounds it returns,
  -- with the value that the thread returned, in the state of that moment; with fewer it still waits.
  pub join_cases :
      (a k fuel : ℕ) (s : Pool api kernel routine) (t : Thread)
      → a ≢ 0
      → ((m : ℕ) → m < k → IsAlive a (found 0 m s))
      → (found 0 k s).heap a ≡ some t
      → is_terminated t.state ≡ true
      → (k < fuel)
          × (join api kernel routine others fuel a s ≡ some ((success, t.retval), found 0 k s))
        ⊎ (fuel ≤ k) × (join api kernel routine others fuel a s ≡ none)
  unfolding join
  join_cases a k fuel s t n alive held dead = elim (dec_lt k fuel) [
    | yes enough ↦
        inl (enough, rw (nonzero a n, loop_ends a k 0 fuel s enough alive t held dead) refl)
    | no short ↦
        inr
          (omega arith, rw (nonzero a n, loop_waits a fuel 0 s (λ m p. alive m (omega arith))) refl)
  ]

  found_heap :
      ((i : ℕ) (s : Pool api kernel routine) → (others i s).heap ≡ s.heap)
      → (i n : ℕ) (s : Pool api kernel routine) → (found i n s).heap ≡ s.heap
  unfolding found
  found_heap same i zero s = refl
  found_heap same i (suc n) s =
      let s' = after api kernel routine s (kernel.task_delay 1 s.world) in
      found_heap same (i + 1) n (others i s') ∙ same i s'

  -- `tt_thread_resume` on FreeRTOS marks every thread as running, one that has ended too: it succeeds,
  -- and from then on `tt_thread_destroy` refuses the thread as active, and `tt_thread_join` does not
  -- return, whatever the number of rounds, unless another task changes the threads.
  pub resume_revives :
      (a : ℕ) (t : Thread) (s : Pool api kernel routine)
      → a ≢ 0
      → s.heap a ≡ some t
      → ((i : ℕ) (s : Pool api kernel routine) → (others i s).heap ≡ s.heap)
      → (s' : Pool api kernel routine) × (resume api kernel routine a s ≡ some (success, s'))
        × (destroy api (port kernel routine) a s' ≡ some (thread_active, s'))
        × ((fuel : ℕ) → join api kernel routine others fuel a s' ≡ none)
  unfolding resume destroy join
  resume_revives a t s n held same =
      let t' : Thread = record t { state = running } in
      let s1 = after api kernel routine s (kernel.task_resume t.handle s.world) in
      let s' = write api kernel routine s1 a t' in
      let here : s'.heap a ≡ some t' = update_self s.heap a (some t') in
      (
        s',
        rw (nonzero a n, held) refl,
        rw (nonzero a n, here) refl,
        (λ fuel.
            rw
              (
                nonzero a n,
                loop_waits a fuel 0 s'
                    (λ m p. (t', ap (λ h. h a) (found_heap same 0 m s') ∙ here, refl)),
              )
              refl),
      )
