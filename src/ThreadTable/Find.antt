-- ===== src/ThreadTable/Find.antt =====
-- What `tt_thread_table_find_by_handle` of src/tt_thread_internal.c finds, `memcmp` being tested as it
-- is there.
use tinytools.Prelude.{
  ℕ, ◌<◌, ◌≡◌, ◌≢◌, ◌⊎◌, inl, inr, refl, ap, true, false, Option, some, [], ◌∷◌, arith, Bool-cases,
  ℕ_discrete,
}
use tinytools.ThreadTable.{Entry, Table, find_loop}
use tinytools.ThreadTable.Loops.{copies}

-- Every thread in use can be read.
abbrev pub Readable : (ℕ → Option ℕ) → Table → Type 0
Readable handle_at [] = Unit
Readable handle_at (e ∷ es) =
    (e.in_use ≡ true → (h : ℕ) × (handle_at e.thread ≡ some h)) × Readable handle_at es

-- Every thread in use has the handle.
abbrev pub AllHave : (ℕ → Option ℕ) → ℕ → Table → Type 0
AllHave handle_at handle [] = Unit
AllHave handle_at handle (e ∷ es) =
    ((e.in_use ≡ false) ⊎ (handle_at e.thread ≡ some handle)) × AllHave handle_at handle es

-- A thread of the table whose handle is not the one asked for.
abbrev pub IsOther : (ℕ → Option ℕ) → ℕ → Table → ℕ → Type 0
IsOther handle_at handle t x = (0 < copies x t) × ((h : ℕ) × (handle_at x ≡ some h) × (h ≢ handle))

-- What the loop returns: NULL, or a thread.
abbrev pub Found : (ℕ → Option ℕ) → ℕ → Table → Option ℕ → Type 0
Found handle_at handle t r =
    (r ≡ some 0) × AllHave handle_at handle t
    ⊎ ((x : ℕ) × (r ≡ some x) × IsOther handle_at handle t x)

pub nil : (handle_at : ℕ → Option ℕ) (handle : ℕ) → find_loop handle_at handle [] ≡ some 0
unfolding find_loop
nil handle_at handle = refl

pub cons-free :
    (handle_at : ℕ → Option ℕ) (handle : ℕ) (e : Entry) (es : Table)
    → e.in_use ≡ false
    → find_loop handle_at handle (e ∷ es) ≡ find_loop handle_at handle es
unfolding find_loop
cons-free handle_at handle e es free = rw free refl

pub cons-same :
    (handle_at : ℕ → Option ℕ) (handle : ℕ) (e : Entry) (es : Table)
    → handle_at e.thread ≡ some handle
    → find_loop handle_at handle (e ∷ es) ≡ find_loop handle_at handle es
unfolding find_loop
cons-same handle_at handle e es read = ground arith

pub cons-other :
    (handle_at : ℕ → Option ℕ) (handle k : ℕ) (e : Entry) (es : Table)
    → e.in_use ≡ true
    → handle_at e.thread ≡ some k
    → k ≢ handle
    → find_loop handle_at handle (e ∷ es) ≡ some e.thread
unfolding find_loop
cons-other handle_at handle k e es taken read other = ground arith

skip :
    (handle_at : ℕ → Option ℕ) (handle : ℕ) (e : Entry) (t : Table) (r : Option ℕ)
    → ((e.in_use ≡ false) ⊎ (handle_at e.thread ≡ some handle))
    → Found handle_at handle t r
    → Found handle_at handle (e ∷ t) r
skip handle_at handle e t r h (inl (null, all)) = inl (null, (h, all))
skip handle_at handle e t r h (inr (x, found, (many, other))) = inr (x, found, (omega arith, other))

-- When every thread in use can be read, the search returns NULL only if all of them have the handle,
-- and otherwise a thread of the table that has a different handle, never one that has it.
pub find_loop_lem :
    (handle_at : ℕ → Option ℕ) (handle : ℕ) (t : Table)
    → Readable handle_at t
    → Found handle_at handle t (find_loop handle_at handle t)
find_loop_lem handle_at handle [] h = inl (nil handle_at handle, tt)
find_loop_lem handle_at handle (e ∷ es) (h, hs) =
    let rest = find_loop_lem handle_at handle es hs in
    elim (Bool-cases e.in_use) [
      | inr free ↦
          rw (cons-free handle_at handle e es free)
            (skip handle_at handle e es (find_loop handle_at handle es) (inl free) rest)
      | inl taken ↦
          let (k, read) = h taken in
          elim (ℕ_discrete k handle) [
            | yes same ↦
                let r : handle_at e.thread ≡ some handle = rw read (ap some same) in
                rw (cons-same handle_at handle e es r)
                  (skip handle_at handle e es (find_loop handle_at handle es) (inr r) rest)
            | no other ↦ inr (
              e.thread,
              cons-other handle_at handle k e es taken read other,
              (ground arith, (k, read, other)),
            )
          ]
    ]

-- If every thread that is in the table can be read.
pub copies-Readable :
    (handle_at : ℕ → Option ℕ) (t : Table)
    → ((x : ℕ) → 0 < copies x t → (h : ℕ) × (handle_at x ≡ some h))
    → Readable handle_at t
copies-Readable handle_at [] h = tt
copies-Readable handle_at (e ∷ es) h = (
  (λ taken. h e.thread (ground arith)),
  copies-Readable handle_at es (λ x there. h x (omega arith)),
)
