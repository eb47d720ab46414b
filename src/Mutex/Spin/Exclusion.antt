-- ===== src/Mutex/Spin/Exclusion.antt =====
-- Threads that share one general mutex of src/tt_mutex.c, interleaved in any order. Each call of
-- `test_and_set`, `tt_mutex_trylock` or `tt_mutex_unlock` is one step; a thread unlocks only what it
-- holds.
use tinytools.Prelude.{
  ℕ, ◌+◌, ◌≤◌, ◌<◌, ◌≡◌, ◌⊎◌, inl, inr, refl, ap, Bool, true, false, some, if◌then◌else◌, arith,
  ℕ_discrete, dec_lt,
}
use tinytools.Prelude.Threads.{
  update, sum_below, sum_below-update, sum_below-eq_zero, weight-le-sum_below, two-le-sum_below,
  sum_below-pos,
}
use tinytools.Types.{TtError, success, busy, is_success}
use tinytools.Mutex.Spin.{SpinMutex, test_and_set, atomic_clear, init, unlock, trylock, is_locked}

-- Where a thread stands: outside, in the loop of `tt_mutex_lock`, or between lock and unlock.
pub data Pc : Type 0 where
  outside waiting inside : Pc

pub record System : Type 0 where
  pub mutex : SpinMutex
  pub pc : ℕ → Pc

-- One step of one thread.
pub data Move (m : SpinMutex) : Pc → SpinMutex → Pc → Type 0 where
  -- `tt_mutex_lock` passes its checks and reaches the loop.
  enter_lock : m.initialized ≡ true → Move m Pc.outside m Pc.waiting
  -- One round of the loop.
  round :
      {set_before : Bool} {m' : SpinMutex}
      → test_and_set m ≡ (set_before, m')
      → Move m Pc.waiting m' (if set_before then Pc.waiting else Pc.inside)
  try :
      {e : TtError} {m' : SpinMutex}
      → trylock (some m) ≡ (e, some m')
      → Move m Pc.outside m' (if is_success e then Pc.inside else Pc.outside)
  leave : {m' : SpinMutex} → unlock (some m) ≡ (success, some m') → Move m Pc.inside m' Pc.outside

pub data Step (n : ℕ) (s : System) : System → Type 0 where
  step :
      (i : ℕ) {m : SpinMutex} {p : Pc}
      → i < n
      → Move s.mutex (s.pc i) m p
      → Step n s (record { mutex = m; pc = update s.pc i p })

-- After `tt_mutex_init`, with every thread outside.
pub data Reach (n : ℕ) : System → Type 0 where
  start :
      (memory : SpinMutex) {m : SpinMutex}
      → init (some memory) ≡ (success, some m)
      → Reach n (record { mutex = m; pc = λ _. Pc.outside })
  next : {s t : System} → Reach n s → Step n s t → Reach n t

abbrev pub owns : Pc → ℕ
owns Pc.inside = 1
owns _ = 0

-- The field counts the threads inside, and no more than one.
pub record Inv (n : ℕ) (s : System) : Type 0 where
  pub ready : s.mutex.initialized ≡ true
  pub counts : s.mutex.lock ≡ sum_below owns n s.pc
  pub single : s.mutex.lock ≤ 1

-- What a move does to the field and to its thread.
Move-owns :
    {m m' : SpinMutex} {p p' : Pc}
    → Move m p m' p'
    → m.initialized ≡ true
    → m.lock ≤ 1
    → owns p ≤ m.lock
    → (m'.initialized ≡ true) × (m'.lock ≤ 1) × (m'.lock + owns p ≡ m.lock + owns p')
unfolding test_and_set trylock unlock atomic_clear
Move-owns (enter_lock r) h l o = (r, omega arith, refl)
Move-owns (round e) h l o = ground arith
Move-owns (try e) h l o = ground arith
Move-owns (leave e) h l o = ground arith

Step-Inv : {n : ℕ} {s t : System} → Step n s t → Inv n s → Inv n t
Step-Inv {n} {s} (step i {m} {p} lt mv) inv =
    let (ready, single, change) =
      Move-owns mv inv.ready inv.single
        (omega (arith, weight-le-sum_below owns n s.pc i lt, inv.counts)) in
    record {
      ready = ready;
      single = single;
      counts = omega (arith, sum_below-update owns n s.pc i p lt, inv.counts, change);
    }

Inv-init :
    (n : ℕ) (memory : SpinMutex) {m : SpinMutex}
    → init (some memory) ≡ (success, some m)
    → Inv n (record { mutex = m; pc = λ _. Pc.outside })
unfolding init
Inv-init n memory e = ground (arith, sum_below-eq_zero owns n (λ _. Pc.outside) (λ i p. refl))

pub Reach-Inv : {n : ℕ} {s : System} → Reach n s → Inv n s
Reach-Inv {n} (start memory e) = Inv-init n memory e
Reach-Inv (next r st) = Step-Inv st (Reach-Inv r)

-- Mutual exclusion: however the calls of any number of threads interleave, at most one thread is
-- between a successful lock or trylock and its unlock.
pub mutual_exclusion :
    {n : ℕ} {s : System}
    → Reach n s
    → (i j : ℕ) → i < n
    → j < n
    → s.pc i ≡ Pc.inside
    → s.pc j ≡ Pc.inside
    → i ≡ j
mutual_exclusion {n} {s} r i j hi hj ei ej = elim (ℕ_discrete i j) [
  | yes e ↦ e
  | no ne ↦ absurd (
      omega (
        arith,
        (Reach-Inv r).counts,
        (Reach-Inv r).single,
        two-le-sum_below owns n s.pc i j hi hj ne,
        ap owns ei,
        ap owns ej,
      ))
]

-- What the three calls that look at the lock say of it.
abbrev pub Shows : SpinMutex → Bool → TtError → Type 0
Shows m taken e =
    (is_locked (some m) ≡ taken) × ((test_and_set m).0 ≡ taken) × ((trylock (some m)).0 ≡ e)

Shows-taken : (m : SpinMutex) → m.initialized ≡ true → m.lock ≡ 1 → Shows m true busy
unfolding is_locked test_and_set trylock
Shows-taken m h l = (ground arith, ground arith, ground arith)

Shows-clear : (m : SpinMutex) → m.initialized ≡ true → m.lock ≡ 0 → Shows m false success
unfolding is_locked test_and_set trylock
Shows-clear m h l = (ground arith, ground arith, ground arith)

owns_pos : (p : Pc) → 0 < owns p → p ≡ Pc.inside
owns_pos Pc.inside h = refl
owns_pos p h = absurd (omega arith)

-- In every reachable state `tt_mutex_is_locked` says whether a thread is inside. While one is, a round
-- of the loop and a trylock fail; while none is, the next round of any waiting thread enters, and so
-- does a trylock.
pub progress :
    {n : ℕ} {s : System}
    → Reach n s
    → ((i : ℕ) × (i < n) × (s.pc i ≡ Pc.inside) × Shows s.mutex true busy)
      ⊎ (¬ ((i : ℕ) × (i < n) × (s.pc i ≡ Pc.inside)) × Shows s.mutex false success)
progress {n} {s} r = elim (dec_lt 0 (sum_below owns n s.pc)) [
  | yes some_in ↦
      let (i, lt, w) = sum_below-pos owns n s.pc some_in in
      inl (
        i,
        lt,
        owns_pos (s.pc i) w,
        Shows-taken s.mutex inv.ready (omega (arith, inv.single, inv.counts)),
      )
  | no none_in ↦ inr (
    (λ (i, lt, e). omega (arith, weight-le-sum_below owns n s.pc i lt, ap owns e)),
    Shows-clear s.mutex inv.ready (omega (arith, inv.counts)),
  )
]
  where
    inv : Inv n s
    inv = Reach-Inv r
