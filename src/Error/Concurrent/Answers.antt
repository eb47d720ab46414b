-- ===== src/Error/Concurrent/Answers.antt =====
-- What concurrent calls of src/tt_error.c read.
use tinytools.Prelude.{
  ℕ, zero, suc, ◌<◌, ◌≡◌, refl, ap, ◌∙◌, false, Option, none, List, [], ◌∷◌, ◌++◌, arith,
}
use tinytools.Types.{TtError, success}
use tinytools.Mutex.Spin.Shared.{goes_on, ends, leaving}
use tinytools.Mutex.Spin.Shared.Logs.{Divides, calls, run_all}
use tinytools.Mutex.Spin.Shared.Known.{IsWorking}
use tinytools.Mutex.Spin.Shared.Serial.{Reach-Inv, last_result}
use tinytools.Error.Concurrent.{
  Fields, Op, sets, gets, registers, deinits, Answer, value, told, done, pass, fresh, System, Reach,
  Admits, since_init-Reach,
}

module _ {Callback : Type 0} where
  unfoldable pub body : Op Callback → Fields Callback → Answer Callback × Fields Callback
  body (sets error) d = (told d.callback, record d { last_error = error })
  body gets d = (value d.last_error, d)
  body (registers callback) d = (done, record d { callback = callback })
  body deinits d = (done, record d { callback = none; initialized = false })

  unfoldable pub from : Op Callback → ℕ → Fields Callback → Answer Callback × Fields Callback
  from c zero d = body c d
  from (sets error) (suc k) d = (told d.callback, d)
  from gets (suc k) d = body gets d
  from (registers callback) (suc k) d = body (registers callback) d
  from deinits (suc k) d = (done, record d { initialized = false })

  from-pass :
      (c : Op Callback) (k : ℕ) (d d' : Fields Callback)
      → pass c k d ≡ goes_on d'
      → from c (suc k) d' ≡ from c k d
  unfolding pass from body
  from-pass (sets error) zero d d' h = ground arith
  from-pass (sets error) (suc k) d d' h = absurd (ground arith)
  from-pass gets k d d' h = absurd (ground arith)
  from-pass (registers callback) k d d' h = absurd (ground arith)
  from-pass deinits zero d d' h = ground arith
  from-pass deinits (suc k) d d' h = absurd (ground arith)

  from-ends :
      (c : Op Callback) (k : ℕ) (d : Fields Callback) (a : Answer Callback) (d' : Fields Callback)
      → pass c k d ≡ ends a d'
      → from c k d ≡ (a, d')
  unfolding pass from body
  from-ends (sets error) zero d a d' h = absurd (ground arith)
  from-ends (sets error) (suc k) d a d' h = ground arith
  from-ends gets zero d a d' h = ground arith
  from-ends gets (suc k) d a d' h = ground arith
  from-ends (registers callback) zero d a d' h = ground arith
  from-ends (registers callback) (suc k) d a d' h = ground arith
  from-ends deinits zero d a d' h = absurd (ground arith)
  from-ends deinits (suc k) d a d' h = ground arith

  unfoldable pub pass-Divides : Divides (pass {Callback = Callback})
  unfolding from from-pass from-ends body
  pass-Divides = record {
    body = body;
    from = from;
    all = λ c d. refl;
    rest = from-pass;
    last = from-ends;
  }

  -- The last error that calls set, and the callback that they leave, from those before.
  abbrev pub last_set : TtError → List (Op Callback) → TtError
  last_set e [] = e
  last_set e (sets error ∷ cs) = last_set error cs
  last_set e (_ ∷ cs) = last_set e cs

  abbrev pub last_registered : Option Callback → List (Op Callback) → Option Callback
  last_registered f [] = f
  last_registered f (registers callback ∷ cs) = last_registered callback cs
  last_registered f (deinits ∷ cs) = last_registered none cs
  last_registered f (_ ∷ cs) = last_registered f cs

  -- The answer to a call after others.
  abbrev pub expected : List (Op Callback) → Op Callback → Answer Callback
  expected before (sets error) = told (last_registered none before)
  expected before gets = value (last_set success before)
  expected before _ = done

  run_all-last_set :
      (cs : List (Op Callback)) (d : Fields Callback)
      → (run_all body cs d).1.last_error ≡ last_set d.last_error cs
  unfolding body
  run_all-last_set [] d = refl
  run_all-last_set (sets error ∷ cs) d = run_all-last_set cs (record d { last_error = error })
  run_all-last_set (gets ∷ cs) d = run_all-last_set cs d
  run_all-last_set (registers f ∷ cs) d = run_all-last_set cs (record d { callback = f })
  run_all-last_set (deinits ∷ cs) d =
      run_all-last_set cs (record d { callback = none; initialized = false })

  run_all-last_registered :
      (cs : List (Op Callback)) (d : Fields Callback)
      → (run_all body cs d).1.callback ≡ last_registered d.callback cs
  unfolding body
  run_all-last_registered [] d = refl
  run_all-last_registered (sets error ∷ cs) d =
      run_all-last_registered cs (record d { last_error = error })
  run_all-last_registered (gets ∷ cs) d = run_all-last_registered cs d
  run_all-last_registered (registers f ∷ cs) d =
      run_all-last_registered cs (record d { callback = f })
  run_all-last_registered (deinits ∷ cs) d =
      run_all-last_registered cs (record d { callback = none; initialized = false })

  body-expected :
      (before : List (Op Callback)) (c : Op Callback)
      → (body c (run_all body before fresh).1).0 ≡ expected before c
  unfolding body
  body-expected before (sets error) = ap told (run_all-last_registered before fresh)
  body-expected before gets = ap value (run_all-last_set before fresh)
  body-expected before (registers f) = refl
  body-expected before deinits = refl

  -- However the calls of any number of threads interleave, a thread that is about to unlock has made
  -- the last call of the log, which has the calls since the last `tt_error_init`. A `tt_error_get_last` has read the error of the last
  -- `tt_error_set_last` before it in the log, and a `tt_error_set_last` the callback that the last
  -- registration before it gave, or none after a `tt_error_deinit`.
  pub concurrent_answers :
      {n : ℕ} {s : System Callback} (i : ℕ) (answer : Answer Callback)
      → Reach n s
      → i < n
      → s.pc i ≡ leaving answer
      → (before : List (Op Callback × Answer Callback)) × (c : Op Callback) × (s.log
          ≡ before ++ ((c, answer) ∷ []))
        × (answer ≡ expected (calls before) c)
  unfolding pass-Divides
  concurrent_answers i answer r lt e =
      let (before, c, split, same) =
        last_result pass (λ c. Unit) Admits pass-Divides i answer (since_init-Reach r) lt e in
      (before, c, split, same ∙ body-expected (calls before) c)

  -- Whenever no thread is between lock and unlock with an access left to make, the fields hold the error
  -- of the last `tt_error_set_last` since the last `tt_error_init`, and the callback of the last registration, or none after
  -- a later `tt_error_deinit`.
  pub fields_hold_last :
      {n : ℕ} {s : System Callback}
      → Reach n s
      → ((i : ℕ) → i < n → ¬ IsWorking (s.pc i))
      → (s.shared.last_error ≡ last_set success (calls s.log))
        × (s.shared.callback ≡ last_registered none (calls s.log))
  unfolding pass-Divides
  fields_hold_last {s = s} r idle =
      let inv = Reach-Inv pass (λ c. Unit) Admits pass-Divides (since_init-Reach r) in
      let same = inv.settled idle in
      (
        ap (λ d. d.last_error) same ∙ run_all-last_set (calls s.log) fresh,
        ap (λ d. d.callback) same ∙ run_all-last_registered (calls s.log) fresh,
      )
