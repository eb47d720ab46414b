-- ===== src/ThreadTable/Bag.antt =====
-- The table of src/tt_thread_internal.c as a bag of at most 32 threads: which call succeeds when, and
-- how often each thread is then in the table. Where a thread stands is forgotten.
use tinytools.Prelude.{
  ℕ, ◌+◌, ◌<◌, ◌≡◌, ◌⊎◌, inl, inr, refl, [], ◌∷◌, ◌==◌, if◌then◌else◌, length, arith, dec_lt,
}
use tinytools.Types.{TtError, success, not_found}
use tinytools.ThreadTable.{Table, register_loop, unregister_loop}
use tinytools.ThreadTable.Loops.{AllOk, used, copies, used-le-length}

pub register-full : (x : ℕ) (t : Table) → used t ≡ length t → register_loop x t ≡ (not_found, t)
unfolding register_loop
register-full x [] h = refl
register-full x (e ∷ es) h = ground (arith, register-full x es, used-le-length es)

-- What a registration adds.
pub record Registered (x y : ℕ) (t : Table) (r : TtError × Table) : Type 0 where
  pub result : r.0 ≡ success
  pub one_more : used r.1 ≡ used t + 1
  pub count : copies y r.1 ≡ copies y t + (if x == y then 1 else 0)

pub register-Registered :
    (x y : ℕ) (t : Table) → used t < length t → Registered x y t (register_loop x t)
unfolding register_loop
register-Registered x y [] h = absurd (omega arith)
register-Registered x y (e ∷ es) h = ground (arith, register-Registered x y es)

-- Registering a thread `x` succeeds as long as fewer entries are in use than there are; then one more
-- is, `x` is in the table once more, and every other thread `y` as often as before. In a full table it
-- fails with NOT_FOUND and changes nothing.
pub register_counts :
    (x y : ℕ) (t : Table)
    → (used t < length t) × Registered x y t (register_loop x t)
      ⊎ (used t ≡ length t) × (register_loop x t ≡ (not_found, t))
register_counts x y t = elim (dec_lt (used t) (length t)) [
  | yes room ↦ inl (room, register-Registered x y t room)
  | no full ↦
      let e : used t ≡ length t = omega (arith, used-le-length t) in inr (e, register-full x t e)
]

pub unregister-absent : (x : ℕ) (t : Table) → copies x t ≡ 0 → unregister_loop x t ≡ (not_found, t)
unfolding unregister_loop
unregister-absent x [] h = refl
unregister-absent x (e ∷ es) h = ground (arith, unregister-absent x es)

-- What an unregistration takes away.
pub record Unregistered (x y : ℕ) (t : Table) (r : TtError × Table) : Type 0 where
  pub result : r.0 ≡ success
  pub one_less : used r.1 + 1 ≡ used t
  pub count : copies y r.1 + (if x == y then 1 else 0) ≡ copies y t

pub unregister-Unregistered :
    (x y : ℕ) (t : Table) → 0 < copies x t → Unregistered x y t (unregister_loop x t)
unfolding unregister_loop
unregister-Unregistered x y [] h = absurd (omega arith)
unregister-Unregistered x y (e ∷ es) h = ground (arith, unregister-Unregistered x y es)

-- Unregistering a thread `x` succeeds if it is in the table; then one entry fewer is in use, `x` is in
-- the table once less, and every other thread `y` as often as before. Otherwise it fails with
-- NOT_FOUND and changes nothing.
pub unregister_counts :
    (x y : ℕ) (t : Table)
    → (0 < copies x t) × Unregistered x y t (unregister_loop x t)
      ⊎ (copies x t ≡ 0) × (unregister_loop x t ≡ (not_found, t))
unregister_counts x y t = elim (dec_lt 0 (copies x t)) [
  | yes there ↦ inl (there, unregister-Unregistered x y t there)
  | no absent ↦ let e : copies x t ≡ 0 = omega arith in inr (e, unregister-absent x t e)
]

-- Registering a thread that is not in a well-formed table with a free entry, and unregistering it,
-- gives the table back, entry for entry.
pub unregister-register :
    (x : ℕ) (t : Table)
    → AllOk t
    → copies x t ≡ 0
    → used t < length t
    → unregister_loop x (register_loop x t).1 ≡ (success, t)
unfolding register_loop unregister_loop
unregister-register x [] ok absent room = absurd (omega arith)
unregister-register x (e ∷ es) ok absent room = ground (arith, unregister-register x es ok.1)
