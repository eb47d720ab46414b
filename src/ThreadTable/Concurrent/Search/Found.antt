-- ===== src/ThreadTable/Concurrent/Search/Found.antt =====
-- What the search of src/tt_thread_internal.c finds, whether or not the threads can be read, by the bag of
-- threads that the table holds.
use mathlib.Core.Path.{subst}
use tinytools.Prelude.{
  ℕ, ◌<◌, ◌≡◌, ◌≢◌, ◌⊎◌, inl, inr, ap, ◌∙◌, true, false, Option, none, some, List, [], ◌∷◌, arith,
  Bool-cases, ℕ_discrete, Option-cases,
}
use tinytools.ThreadTable.{Entry, Table, find_loop}
use tinytools.ThreadTable.Loops.{copies}
use tinytools.ThreadTable.Find.{AllHave, IsOther, nil, cons-free, cons-same, cons-other}
use tinytools.ThreadTable.Refine.{count, Holds}

module _ (handle_at : ℕ → Option ℕ) (handle : ℕ) where
  -- Every thread of the bag has the handle.
  abbrev pub AllIn : List ℕ → Type 0
  AllIn [] = Unit
  AllIn (x ∷ ts) = (handle_at x ≡ some handle) × AllIn ts

  -- What a search returns for a bag of threads: NULL, and all have the handle; a thread of the bag that
  -- has another one; or it faults at a thread of the bag that cannot be read.
  abbrev pub FoundIn : List ℕ → Option ℕ → Type 0
  FoundIn ts r =
      (r ≡ some 0) × AllIn ts
      ⊎ ((x : ℕ) × (r ≡ some x)
          × (0 < count x ts)
          × ((h : ℕ) × (handle_at x ≡ some h) × (h ≢ handle)))
      ⊎ ((x : ℕ) × (r ≡ none) × (0 < count x ts) × (handle_at x ≡ none))

  -- The same for a table.
  abbrev pub FoundAt : Table → Option ℕ → Type 0
  FoundAt t r =
      (r ≡ some 0) × AllHave handle_at handle t
      ⊎ ((x : ℕ) × (r ≡ some x) × IsOther handle_at handle t x)
      ⊎ ((x : ℕ) × (r ≡ none) × (0 < copies x t) × (handle_at x ≡ none))

  pass_over :
      (e : Entry) (t : Table) (r : Option ℕ)
      → ((e.in_use ≡ false) ⊎ (handle_at e.thread ≡ some handle))
      → FoundAt t r
      → FoundAt (e ∷ t) r
  pass_over e t r h (inl (null, all)) = inl (null, (h, all))
  pass_over e t r h (inr (inl (x, found, (many, other)))) =
      inr (inl (x, found, (omega arith, other)))
  pass_over e t r h (inr (inr (x, fault, many, read))) = inr (inr (x, fault, omega arith, read))

  cons-fault :
      (e : Entry) (es : Table)
      → e.in_use ≡ true
      → handle_at e.thread ≡ none
      → find_loop handle_at handle (e ∷ es) ≡ none
  unfolding find_loop
  cons-fault e es taken read = ground (arith, taken, read)

  pub find_loop-FoundAt : (t : Table) → FoundAt t (find_loop handle_at handle t)
  find_loop-FoundAt [] = inl (nil handle_at handle, tt)
  find_loop-FoundAt (e ∷ es) =
      let rest = find_loop-FoundAt es in
      elim (Bool-cases e.in_use) [
        | inr free ↦
            rw (cons-free handle_at handle e es free)
              (pass_over e es (find_loop handle_at handle es) (inl free) rest)
        | inl taken ↦ elim (Option-cases (handle_at e.thread)) [
          | inl fault ↦ inr (inr (e.thread, cons-fault e es taken fault, ground arith, fault))
          | inr (k, read) ↦ elim (ℕ_discrete k handle) [
            | yes same ↦
                let r : handle_at e.thread ≡ some handle = read ∙ ap some same in
                rw (cons-same handle_at handle e es r)
                  (pass_over e es (find_loop handle_at handle es) (inr r) rest)
            | no other ↦ inr (
                inl (
                  e.thread,
                  cons-other handle_at handle k e es taken read other,
                  (ground arith, (k, read, other)),
                ))
          ]
        ]
      ]

  have-at :
      (t : Table) (x : ℕ) → AllHave handle_at handle t → 0 < copies x t → handle_at x ≡ some handle
  have-at [] x all h = absurd (omega arith)
  have-at (e ∷ es) x (inl free, all) h = have-at es x all (ground arith)
  have-at (e ∷ es) x (inr read, all) h = elim (ℕ_discrete e.thread x) [
    | yes same ↦ subst (λ x. handle_at x ≡ some handle) same read
    | no other ↦ have-at es x all (ground arith)
  ]

  all-in : (ts : List ℕ) → ((x : ℕ) → 0 < count x ts → handle_at x ≡ some handle) → AllIn ts
  all-in [] h = tt
  all-in (t ∷ ts) h = (h t (ground arith), all-in ts (λ x many. h x (omega arith)))

  pub found-in : (t : Table) (ts : List ℕ) (r : Option ℕ) → Holds t ts → FoundAt t r → FoundIn ts r
  found-in t ts r holds (inl (null, all)) =
      inl (null, all-in ts (λ x many. have-at t x all (omega (arith, holds.same x))))
  found-in t ts r holds (inr (inl (x, found, (many, other)))) =
      inr (inl (x, found, omega (arith, holds.same x), other))
  found-in t ts r holds (inr (inr (x, fault, many, read))) =
      inr (inr (x, fault, omega (arith, holds.same x), read))
