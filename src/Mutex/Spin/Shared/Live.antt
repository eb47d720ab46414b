-- ===== src/Mutex/Spin/Shared/Live.antt =====
-- Threads that share data behind a general mutex do not wait for each other for ever: from every state
-- that they reach there are steps that end all calls.
use mathlib.Core.Path.{fun_ext}
use tinytools.Prelude.{
  ℕ, zero, suc, ◌+◌, ◌≤◌, ◌<◌, ◌≡◌, sym, ap, ◌∙◌, length, arith, dec_lt, ℕ_discrete,
}
use tinytools.Prelude.Threads.{
  update, update_self, update_ne, sum_below, sum_below-update, sum_below-eq_zero,
  weight-le-sum_below,
}
use tinytools.Mutex.Spin.Shared.{Pass, idle, System, Reach}
use tinytools.Mutex.Spin.Shared.Later.{
  busy, unlogged, pending, idle-when, Later, now, Reach-Later, Later-trans,
}
use tinytools.Mutex.Spin.Shared.Ending.{Bounded, Ended, end_one}

module _ {Op Result Data : Type 0} (pass : Op → ℕ → Data → Pass Result Data)
    (IsProper : Op → Type 0) (Admits : Op → Data → Type 0) where
  module _ (bounded : Bounded pass) where
    -- The state after steps that end all calls, with each call that was not in the log.
    pub record AllEnded (n : ℕ) (s : System Op Result Data) : Type 0 where
      pub last : System Op Result Data
      pub later : Later pass IsProper Admits n s last
      pub all_idle : (i : ℕ) → i < n → last.pc i ≡ idle
      pub logged : length last.log ≡ length s.log + pending n s

    nothing_busy : {n : ℕ} (s : System Op Result Data) → sum_below busy n s.pc ≡ 0 → AllEnded n s
    nothing_busy {n} s none =
        let all : (i : ℕ) → i < n → s.pc i ≡ idle =
          λ i lt. idle-when (s.pc i) (omega (arith, none, weight-le-sum_below busy n s.pc i lt)) in
        record {
          last = s;
          later = now;
          all_idle = all;
          logged =
              omega (arith, sum_below-eq_zero unlogged n s.pc (λ i lt. ap unlogged (all i lt)));
        }

    idle_at :
        {n : ℕ} (s : System Op Result Data) (i : ℕ) (x : Ended pass IsProper Admits n s i)
        → x.last.pc ≡ update s.pc i idle
    idle_at s i x = fun_ext (λ j. elim (ℕ_discrete i j) [
      | yes same ↦ rw (sym same) (x.is_idle ∙ sym (update_self s.pc i idle))
      | no other ↦ x.others j other ∙ sym (update_ne s.pc i idle j other)
    ])

    end_all :
        {n : ℕ} {first : Data} (m : ℕ) (s : System Op Result Data)
        → Reach pass IsProper Admits n first s
        → sum_below busy n s.pc ≤ m
        → AllEnded n s
    end_all zero s r h = nothing_busy s (omega arith)
    end_all {n} (suc m) s r h = elim (dec_lt 0 (sum_below busy n s.pc)) [
      | no none ↦ nothing_busy s (omega arith)
      | yes some_busy ↦
          let (i, lt, b, x) = end_one pass IsProper Admits bounded s r some_busy in
          let now_idle = idle_at s i x in
          let fewer = sum_below-update busy n s.pc i idle lt in
          let done = sum_below-update unlogged n s.pc i idle lt in
          let y =
            end_all m x.last (Reach-Later pass IsProper Admits r x.later)
              (omega (arith, ap (sum_below busy n) now_idle, fewer)) in
          record {
            last = y.last;
            later = Later-trans pass IsProper Admits x.later y.later;
            all_idle = y.all_idle;
            logged = omega (arith, y.logged, x.logged, ap (sum_below unlogged n) now_idle, done);
          }
    ]

    -- From every state that the threads reach there are steps after which no thread is in a call, and
    -- each call that was on its way is in the log.
    pub calls_end :
        {n : ℕ} {first : Data} {s : System Op Result Data}
        → Reach pass IsProper Admits n first s
        → AllEnded n s
    calls_end {n} {s = s} r = end_all (sum_below busy n s.pc) s r (omega arith)
