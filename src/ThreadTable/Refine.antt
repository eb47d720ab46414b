-- ===== src/ThreadTable/Refine.antt =====
-- src/tt_thread_internal.c against what it promises: a bag of at most 32 threads, as a list whose
-- order does not matter.
use tinytools.Prelude.{
  ℕ, ◌+◌, ◌<◌, ◌≡◌, ◌≢◌, refl, ap, true, false, Option, some, List, [], ◌∷◌, ◌==◌, if◌then◌else◌,
  length, arith, dec_lt, ℕ_discrete, ◌∙◌, ltb,
}
use tinytools.Types.{TtError, success, null_pointer, not_found}
use tinytools.Mutex.{MutexApi}
use tinytools.ThreadTable.{
  Table, zeroed, max_threads, register_loop, unregister_loop, Globals, register, unregister, Call,
  registers, unregisters, cleans_up, step, run,
}
use tinytools.ThreadTable.Loops.{
  IsTable, copies, used, used-le-length, register-IsTable, unregister-IsTable,
}
use tinytools.ThreadTable.Bag.{
  Registered, Unregistered, register-full, register-Registered, unregister-absent,
  unregister-Unregistered,
}
use tinytools.ThreadTable.Calls.{
  IsReady, Ends, register-Ends, unregister-Ends, cleanup-Ends, nonzero, zeroed-IsTable,
}

abbrev pub count : ℕ → List ℕ → ℕ
count x [] = 0
count x (y ∷ ys) = (if y == x then 1 else 0) + count x ys

abbrev pub remove : ℕ → List ℕ → List ℕ
remove x [] = []
remove x (y ∷ ys) = if y == x then ys else y ∷ remove x ys

-- The specification: the threads that are registered, in no order.
abbrev pub spec : Call → List ℕ → TtError × List ℕ
spec (registers x) ts =
    if x == 0
    then (null_pointer, ts)
    else if ltb (length ts) max_threads
    then (success, x ∷ ts)
    else (not_found, ts)
spec (unregisters x) ts =
    if x == 0
    then (null_pointer, ts)
    else if ltb 0 (count x ts)
    then (success, remove x ts)
    else (not_found, ts)
spec cleans_up ts = (success, [])

abbrev pub spec_run : List Call → List ℕ → List TtError × List ℕ
spec_run [] ts = ([], ts)
spec_run (c ∷ cs) ts =
    let (e, ts') = spec c ts in let (es, ts'') = spec_run cs ts' in (e ∷ es, ts'')

-- The table holds the threads of the list, each as often.
pub record Holds (t : Table) (ts : List ℕ) : Type 0 where
  pub size : used t ≡ length ts
  pub same : (x : ℕ) → copies x t ≡ count x ts

count-remove :
    (x y : ℕ) (ts : List ℕ)
    → 0 < count x ts
    → count y (remove x ts) + (if x == y then 1 else 0) ≡ count y ts
count-remove x y [] h = absurd (omega arith)
count-remove x y (t ∷ ts) h = ground (arith, count-remove x y ts)

length-remove : (x : ℕ) (ts : List ℕ) → 0 < count x ts → length (remove x ts) + 1 ≡ length ts
length-remove x [] h = absurd (omega arith)
length-remove x (t ∷ ts) h = ground (arith, length-remove x ts)

-- What a loop returns and leaves is what the specification says.
pub record Agrees (r : TtError × Table) (s : TtError × List ℕ) : Type 0 where
  pub result : r.0 ≡ s.0
  pub holds : Holds r.1 s.1

lookup-Registered :
    (x : ℕ) (t : Table) (ts : List ℕ)
    → Holds t ts
    → ((y : ℕ) → Registered x y t (register_loop x t))
    → Agrees (register_loop x t) (success, x ∷ ts)
lookup-Registered x t ts h r = record {
  result = (r x).result;
  holds = record {
    size = omega (arith, (r x).one_more, h.size);
    same = λ y. ground (arith, (r y).count, h.same y);
  };
}

lookup-Unregistered :
    (x : ℕ) (t : Table) (ts : List ℕ)
    → Holds t ts
    → 0 < count x ts
    → ((y : ℕ) → Unregistered x y t (unregister_loop x t))
    → Agrees (unregister_loop x t) (success, remove x ts)
lookup-Unregistered x t ts h there r = record {
  result = (r x).result;
  holds = record {
    size = omega (arith, (r x).one_less, h.size, length-remove x ts there);
    same = λ y. omega (arith, (r y).count, h.same y, count-remove x y ts there);
  };
}

pub register-Agrees :
    (x : ℕ) (t : Table) (ts : List ℕ)
    → x ≢ 0
    → length t ≡ max_threads
    → Holds t ts
    → Agrees (register_loop x t) (spec (registers x) ts)
register-Agrees x t ts n size h = elim (dec_lt (used t) (length t)) [
  | yes room ↦
      let room' : ltb (length ts) max_threads ≡ true = ground (arith, h.size) in
      rw (nonzero x n, room') (lookup-Registered x t ts h (λ y. register-Registered x y t room))
  | no full ↦
      let full' : ltb (length ts) max_threads ≡ false = ground (arith, h.size) in
      rw (nonzero x n, full', register-full x t (omega (arith, used-le-length t)))
        (record { result = refl; holds = h })
]

pub unregister-Agrees :
    (x : ℕ) (t : Table) (ts : List ℕ)
    → x ≢ 0
    → Holds t ts
    → Agrees (unregister_loop x t) (spec (unregisters x) ts)
unregister-Agrees x t ts n h = elim (dec_lt 0 (copies x t)) [
  | yes there ↦
      let there' : ltb 0 (count x ts) ≡ true = ground (arith, h.same x) in
      rw (nonzero x n, there')
        (lookup-Unregistered x t ts h (omega (arith, h.same x))
          (λ y. unregister-Unregistered x y t there))
  | no absent ↦
      let absent' : ltb 0 (count x ts) ≡ false = ground (arith, h.same x) in
      rw (nonzero x n, absent', unregister-absent x t (omega arith))
        (record { result = refl; holds = h })
]

-- A table whose entries are all free holds no thread.
pub zeroed-Holds : Holds zeroed []
zeroed-Holds = record { size = refl; same = λ x. refl }

module _ (api : MutexApi) where
  -- A call that returns the specification's status, in a state that holds its threads.
  record Refines (s : TtError × List ℕ) (r : Option (TtError × Globals api)) : Type 0 where
    last : Globals api
    returned : r ≡ some (s.0, last)
    ready : IsReady api last
    holds : Holds last.table s.1

  Ends-Refines :
      {e : TtError} {t : Table} {s : TtError × List ℕ} {r : Option (TtError × Globals api)}
      → Ends api e t r
      → IsTable t
      → Agrees (e, t) s
      → Refines s r
  Ends-Refines x table a = record {
    last = x.last;
    returned = x.returned ∙ ap (λ v. some (v, x.last)) a.result;
    ready = record { table = rw x.left table; free = x.free };
    holds = rw x.left a.holds;
  }

  step-Refines :
      (c : Call) (g : Globals api) (ts : List ℕ)
      → IsReady api g
      → Holds g.table ts
      → Refines (spec c ts) (step api c g)
  unfolding step register unregister
  step-Refines (registers x) g ts ready h = elim (ℕ_discrete x 0) [
    | yes null ↦ rw null (record { last = g; returned = refl; ready = ready; holds = h })
    | no n ↦
        Ends-Refines (register-Ends api x g n ready.free) (register-IsTable x g.table n ready.table)
          (register-Agrees x g.table ts n ready.table.size h)
  ]
  step-Refines (unregisters x) g ts ready h = elim (ℕ_discrete x 0) [
    | yes null ↦ rw null (record { last = g; returned = refl; ready = ready; holds = h })
    | no n ↦
        Ends-Refines (unregister-Ends api x g n ready.free)
          (unregister-IsTable x g.table ready.table) (unregister-Agrees x g.table ts n h)
  ]
  step-Refines cleans_up g ts ready h =
      Ends-Refines (cleanup-Ends api g ready.free) zeroed-IsTable
        (record { result = refl; holds = zeroed-Holds })

  -- From a well-formed table behind a free mutex, every sequence of registrations, unregistrations
  -- and cleanups returns, with exactly the statuses of a bag of at most 32 threads, and leaves a
  -- well-formed table with the threads of the bag, in some order, behind a free mutex.
  pub run_refines_bag :
      (cs : List Call) (g : Globals api) (ts : List ℕ)
      → IsReady api g
      → Holds g.table ts
      → (g' : Globals api) × (run api cs g ≡ some ((spec_run cs ts).0, g'))
        × IsReady api g'
        × Holds g'.table (spec_run cs ts).1
  unfolding run
  run_refines_bag [] g ts ready h = (g, refl, ready, h)
  run_refines_bag (c ∷ cs) g ts ready h =
      let r = step-Refines c g ts ready h in
      let (g', rest, ready', h') = run_refines_bag cs r.last (spec c ts).1 r.ready r.holds in
      (g', rw (r.returned, rest) refl, ready', h')
