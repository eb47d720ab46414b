-- ===== src/ThreadTable/Concurrent/Search/Passes.antt =====
-- The loop of `tt_thread_table_find_by_handle` of src/tt_thread_internal.c, pass by pass, against the loop
-- as a whole; and that no loop over the table makes more passes than it has entries, and one.
use tinytools.Prelude.{
  some, none, ◌≢◌, ℕ, zero, suc, ◌-◌, ◌<◌, ◌≡◌, inl, inr, refl, ap, ◌∙◌, Option, [], ◌∷◌, length,
  arith, Option-cases,
}
use tinytools.Mutex.Spin.Shared.{goes_on, ends, faults}
use tinytools.Mutex.Spin.Shared.Logs.{Divides, Pass-cases}
use tinytools.Mutex.Spin.Shared.Ending.{Bounded}
use tinytools.ThreadTable.{Table, find_loop, Call, registers, unregisters, cleans_up}
use tinytools.ThreadTable.Concurrent.{pass, register_pass, unregister_pass}
use tinytools.ThreadTable.Concurrent.Search.{find_pass, passes_of}
use tinytools.ThreadTable.Concurrent.Scan.{same_table, pass-Divides}
use tinytools.Mutex.Spin.Shared.Choice.{choice-Divides, choice-Bounded}

-- The table from the entry with a number on.
abbrev pub rest_of : ℕ → Table → Table
rest_of zero t = t
rest_of (suc k) [] = []
rest_of (suc k) (e ∷ es) = rest_of k es

module _ (handle_at : ℕ → Option ℕ) where
  unfoldable pub body : ℕ → Table → Option ℕ × Table
  body handle t = (find_loop handle_at handle t, t)

  unfoldable pub from : ℕ → ℕ → Table → Option ℕ × Table
  from handle k t = (find_loop handle_at handle (rest_of k t), t)

  -- A pass that goes on has found nothing at its entry.
  find-goes_on :
      (handle k : ℕ) (t t' : Table)
      → find_pass handle_at handle k t ≡ goes_on t'
      → (t' ≡ t)
        × (k < length t)
        × (find_loop handle_at handle (rest_of (suc k) t)
            ≡ find_loop handle_at handle (rest_of k t))
  unfolding find_pass find_loop
  find-goes_on handle k [] t' h = absurd (ground arith)
  find-goes_on handle zero (e ∷ es) t' h = elim (Option-cases (handle_at e.thread)) [
    | inl fault ↦ ground (arith, fault)
    | inr (x, read) ↦ ground (arith, read)
  ]
  find-goes_on handle (suc k) (e ∷ es) t' h = elim (Pass-cases (find_pass handle_at handle k es)) [
    | inl (u, more) ↦
        let (same, lt, loop) = find-goes_on handle k es u more in
        (ground (arith, same, more), omega (arith, lt), loop)
    | inr (inl (r, u, last)) ↦ absurd (ground arith)
    | inr (inr fault) ↦ absurd (ground arith)
  ]

  find-ends :
      (handle k : ℕ) (t : Table) (r : Option ℕ) (t' : Table)
      → find_pass handle_at handle k t ≡ ends r t'
      → (t' ≡ t) × (find_loop handle_at handle (rest_of k t) ≡ r)
  unfolding find_pass find_loop
  find-ends handle zero [] r t' h = (ground arith, ground arith)
  find-ends handle (suc k) [] r t' h = (ground arith, ground arith)
  find-ends handle zero (e ∷ es) r t' h = elim (Option-cases (handle_at e.thread)) [
    | inl fault ↦ ground (arith, fault)
    | inr (x, read) ↦ ground (arith, read)
  ]
  find-ends handle (suc k) (e ∷ es) r t' h = elim (Pass-cases (find_pass handle_at handle k es)) [
    | inl (u, more) ↦ absurd (ground arith)
    | inr (inl (q, u, last)) ↦
        let (same, loop) = find-ends handle k es q u last in
        (ground (arith, same, last), loop ∙ ground arith)
    | inr (inr fault) ↦ absurd (ground arith)
  ]

  -- A pass that ends has a result.
  pub find-some :
      (handle k : ℕ) (t : Table) (r : Option ℕ) (t' : Table)
      → find_pass handle_at handle k t ≡ ends r t'
      → r ≢ none
  unfolding find_pass
  find-some handle zero [] r t' h e = ground arith
  find-some handle (suc k) [] r t' h e = ground arith
  find-some handle zero (e ∷ es) r t' h n = elim (Option-cases (handle_at e.thread)) [
    | inl fault ↦ ground (arith, fault)
    | inr (x, read) ↦ ground (arith, read)
  ]
  find-some handle (suc k) (e ∷ es) r t' h n = elim (Pass-cases (find_pass handle_at handle k es)) [
    | inl (u, more) ↦ ground arith
    | inr (inl (q, u, last)) ↦ find-some handle k es q u last (ground arith)
    | inr (inr fault) ↦ ground arith
  ]

  -- The passes of a search are together its loop.
  pub find-rest :
      (handle k : ℕ) (t t' : Table)
      → find_pass handle_at handle k t ≡ goes_on t'
      → from handle (suc k) t' ≡ from handle k t
  unfolding from
  find-rest handle k t t' h =
      let (same, lt, loop) = find-goes_on handle k t t' h in rw same (ap (λ r. (r, t)) loop)

  pub find-last :
      (handle k : ℕ) (t : Table) (r : Option ℕ) (t' : Table)
      → find_pass handle_at handle k t ≡ ends r t'
      → from handle k t ≡ (r, t')
  unfolding from
  find-last handle k t r t' h =
      let (same, loop) = find-ends handle k t r t' h in rw same (ap (λ r. (r, t)) loop)

  unfoldable pub find-Divides : Divides (find_pass handle_at)
  unfolding from body
  find-Divides = record {
    body = body;
    from = from;
    all = λ handle t. refl;
    rest = find-rest;
    last = find-last;
  }

  find-shrinks :
      (handle k : ℕ) (t t' : Table)
      → find_pass handle_at handle k t ≡ goes_on t'
      → length t' - suc k < length t - k
  find-shrinks handle k t t' h =
      let (same, lt, loop) = find-goes_on handle k t t' h in rw same (omega arith)

  module _ (readable : (x : ℕ) → (h : ℕ) × (handle_at x ≡ some h)) where
    find-safe : (handle k : ℕ) (t : Table) → find_pass handle_at handle k t ≢ faults
    unfolding find_pass
    find-safe handle zero [] h = ground arith
    find-safe handle (suc k) [] h = ground arith
    find-safe handle zero (e ∷ es) h = let (x, read) = readable e.thread in ground (arith, read)
    find-safe handle (suc k) (e ∷ es) h = elim (Pass-cases (find_pass handle_at handle k es)) [
      | inl (u, more) ↦ ground arith
      | inr (inl (r, u, last)) ↦ ground arith
      | inr (inr fault) ↦ find-safe handle k es fault
    ]

    pub find-Bounded : Bounded (find_pass handle_at)
    find-Bounded = record {
      left = λ handle k t. length t - k;
      shrinks = find-shrinks;
      safe = find-safe;
    }

-- The same bound for the calls that change the table.
goes_on-lt : (c : Call) (k : ℕ) (t t' : Table) → pass c k t ≡ goes_on t' → k < length t
unfolding pass register_pass unregister_pass
goes_on-lt (registers x) k [] t' h = absurd (ground arith)
goes_on-lt (registers x) zero (e ∷ es) t' h = omega arith
goes_on-lt (registers x) (suc k) (e ∷ es) t' h = elim (Pass-cases (register_pass x k es)) [
  | inl (u, more) ↦ omega (arith, goes_on-lt (registers x) k es u more)
  | inr (inl (r, u, last)) ↦ absurd (ground arith)
  | inr (inr fault) ↦ absurd (ground arith)
]
goes_on-lt (unregisters x) k [] t' h = absurd (ground arith)
goes_on-lt (unregisters x) zero (e ∷ es) t' h = omega arith
goes_on-lt (unregisters x) (suc k) (e ∷ es) t' h = elim (Pass-cases (unregister_pass x k es)) [
  | inl (u, more) ↦ omega (arith, goes_on-lt (unregisters x) k es u more)
  | inr (inl (r, u, last)) ↦ absurd (ground arith)
  | inr (inr fault) ↦ absurd (ground arith)
]
goes_on-lt cleans_up k t t' h = absurd (ground arith)

pass-shrinks :
    (c : Call) (k : ℕ) (t t' : Table) → pass c k t ≡ goes_on t' → length t' - suc k < length t - k
pass-shrinks c k t t' h = rw (same_table c k t t' h) (omega (arith, goes_on-lt c k t t' h))

pass-safe : (c : Call) (k : ℕ) (t : Table) → pass c k t ≢ faults
unfolding pass register_pass unregister_pass
pass-safe (registers x) zero [] h = ground arith
pass-safe (registers x) (suc k) [] h = ground arith
pass-safe (registers x) zero (e ∷ es) h = ground arith
pass-safe (registers x) (suc k) (e ∷ es) h = elim (Pass-cases (register_pass x k es)) [
  | inl (u, more) ↦ ground arith
  | inr (inl (r, u, last)) ↦ ground arith
  | inr (inr fault) ↦ pass-safe (registers x) k es fault
]
pass-safe (unregisters x) zero [] h = ground arith
pass-safe (unregisters x) (suc k) [] h = ground arith
pass-safe (unregisters x) zero (e ∷ es) h = ground arith
pass-safe (unregisters x) (suc k) (e ∷ es) h = elim (Pass-cases (unregister_pass x k es)) [
  | inl (u, more) ↦ ground arith
  | inr (inl (r, u, last)) ↦ ground arith
  | inr (inr fault) ↦ pass-safe (unregisters x) k es fault
]
pass-safe cleans_up k t h = ground arith

pass-Bounded : Bounded pass
pass-Bounded = record { left = λ c k t. length t - k; shrinks = pass-shrinks; safe = pass-safe }

-- Of both kinds of call.
unfoldable pub all-Divides : (handle_at : ℕ → Option ℕ) → Divides (passes_of handle_at)
unfolding pass-Divides find-Divides
all-Divides handle_at =
    choice-Divides pass (find_pass handle_at) pass-Divides (find-Divides handle_at)

pub all-Bounded :
    (handle_at : ℕ → Option ℕ)
    → ((x : ℕ) → (h : ℕ) × (handle_at x ≡ some h))
    → Bounded (passes_of handle_at)
all-Bounded handle_at readable =
    choice-Bounded pass (find_pass handle_at) pass-Bounded (find-Bounded handle_at readable)
