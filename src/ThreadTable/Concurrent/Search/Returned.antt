-- ===== src/ThreadTable/Concurrent/Search/Returned.antt =====
-- No call of src/tt_thread_internal.c comes to its unlock by way of a fault.
use mathlib.Core.Path.{subst}
use tinytools.Prelude.{
  arith, some, none, ◌≢◌, true, false, ℕ, ◌<◌, ◌≡◌, inl, inr, refl, Option, List,
}
use tinytools.Mutex.Spin.{SpinMutex}
use tinytools.Mutex.Spin.Shared.{
  ends, Pc, leaving, Turn, starts, round, passes, stops, leaves, step, start, next,
}
use tinytools.Mutex.Spin.Shared.Known.{at-update}
use tinytools.Mutex.Spin.Shared.Choice.{choice, relabel-ends}
use tinytools.ThreadTable.Concurrent.{pass}
use tinytools.ThreadTable.{Table}
use tinytools.ThreadTable.Concurrent.Search.{
  Op, Answer, IsProperOp, find_pass, passes_of, System, Reach,
}
use tinytools.ThreadTable.Concurrent.Search.Passes.{find-some}

module _ (handle_at : ℕ → Option ℕ) where
  -- Where a thread stands that does not return from a fault.
  abbrev HasResult : Pc Op Answer → Type 0
  HasResult (leaving (inr none)) = ⊥
  HasResult p = Unit

  result-HasResult : (a : Answer) → a ≢ inr none → HasResult (leaving a)
  result-HasResult (inl e) n = tt
  result-HasResult (inr none) n = n refl
  result-HasResult (inr (some x)) n = tt

  ends-HasResult :
      (op : Op) (k : ℕ) (t t' : Table) (a : Answer)
      → passes_of handle_at op k t ≡ ends a t'
      → a ≢ inr none
  unfolding choice
  ends-HasResult (inl c) k t t' a h e =
      let (r, done, same) = relabel-ends inl (pass c k t) a t' h in ground (arith, same, e)
  ends-HasResult (inr handle) k t t' a h e =
      let (r, done, same) = relabel-ends inr (find_pass handle_at handle k t) a t' h in
      find-some handle_at handle k t r t' done (ground (arith, same, e))

  Turn-HasResult :
      {m m' : SpinMutex} {t t' : Table} {p p' : Pc Op Answer} {l : List (Op × Answer)}
      → Turn (passes_of handle_at) IsProperOp (λ c t. Unit) m t p m' t' p' l
      → HasResult p'
  Turn-HasResult (starts op proper admitted ready) = tt
  Turn-HasResult (round op {set_before = true} e) = tt
  Turn-HasResult (round op {set_before = false} e) = tt
  Turn-HasResult (passes op k t' more) = tt
  Turn-HasResult {t = t} (stops op k a t' last) =
      result-HasResult a (ends-HasResult op k t t' a last)
  Turn-HasResult (leaves a e) = tt

  Reach-HasResult :
      {n : ℕ} {s : System} → Reach handle_at n s → (i : ℕ) → i < n → HasResult (s.pc i)
  Reach-HasResult (start memory e) i lt = tt
  Reach-HasResult (next {s} r (step i {p = p} it turn)) j lt =
      at-update HasResult s.pc i p (Turn-HasResult turn) (λ j lt n. Reach-HasResult r j lt) j lt

  HasResult-fault : (a : Answer) → HasResult (leaving a) → a ≢ inr none
  HasResult-fault (inl e) returned same = ground (arith, same)
  HasResult-fault (inr none) returned same = returned
  HasResult-fault (inr (some x)) returned same = ground (arith, same)

  -- A thread that is about to unlock has not read a thread that cannot be read.
  pub leaving-fault :
      {n : ℕ} {s : System} (i : ℕ) (a : Answer)
      → Reach handle_at n s
      → i < n
      → s.pc i ≡ leaving a
      → a ≢ inr none
  leaving-fault i a r lt e = HasResult-fault a (subst HasResult e (Reach-HasResult r i lt))
