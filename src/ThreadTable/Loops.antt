-- ===== src/ThreadTable/Loops.antt =====
-- The loops over the table of src/tt_thread_internal.c: what they return, and what they change.
use tinytools.Prelude.{
  ℕ, ◌+◌, ◌≤◌, ◌≡◌, ◌≢◌, ◌⊎◌, refl, ◌∙◌, true, [], ◌∷◌, ◌==◌, ◌&&◌, if◌then◌else◌, length, arith,
}
use tinytools.ThreadTable.{Entry, max_threads, Table, no_entry, register_loop, unregister_loop}

-- A free entry is all 0, and one in use holds a thread.
abbrev pub EntryOk : Entry → Type 0
EntryOk e = ((e.in_use ≡ true) × (e.thread ≢ 0)) ⊎ (e ≡ no_entry)

abbrev pub AllOk : Table → Type 0
AllOk [] = Unit
AllOk (e ∷ es) = EntryOk e × AllOk es

pub record IsTable (t : Table) : Type 0 where
  pub size : length t ≡ max_threads
  pub entries : AllOk t

-- The entries in use, and those among them that hold a thread.
abbrev pub used : Table → ℕ
used [] = 0
used (e ∷ es) = (if e.in_use then 1 else 0) + used es

abbrev pub copies : ℕ → Table → ℕ
copies thread [] = 0
copies thread (e ∷ es) = (if e.in_use && e.thread == thread then 1 else 0) + copies thread es

pub used-le-length : (t : Table) → used t ≤ length t
used-le-length [] = omega arith
used-le-length (e ∷ es) = ground (arith, used-le-length es)

pub length-register : (x : ℕ) (t : Table) → length (register_loop x t).1 ≡ length t
unfolding register_loop
length-register x [] = refl
length-register x (e ∷ es) = ground (arith, length-register x es)

pub length-unregister : (x : ℕ) (t : Table) → length (unregister_loop x t).1 ≡ length t
unfolding unregister_loop
length-unregister x [] = refl
length-unregister x (e ∷ es) = ground (arith, length-unregister x es)

AllOk-register : (x : ℕ) (t : Table) → x ≢ 0 → AllOk t → AllOk (register_loop x t).1
unfolding register_loop
AllOk-register x [] n h = tt
AllOk-register x (e ∷ es) n h = ground (arith, AllOk-register x es n h.1)

AllOk-unregister : (x : ℕ) (t : Table) → AllOk t → AllOk (unregister_loop x t).1
unfolding unregister_loop
AllOk-unregister x [] h = tt
AllOk-unregister x (e ∷ es) h = ground (arith, AllOk-unregister x es h.1)

-- Both loops keep the table well-formed: its length, and that free entries are all 0.
pub register-IsTable : (x : ℕ) (t : Table) → x ≢ 0 → IsTable t → IsTable (register_loop x t).1
register-IsTable x t n h = record {
  size = length-register x t ∙ h.size;
  entries = AllOk-register x t n h.entries;
}

pub unregister-IsTable : (x : ℕ) (t : Table) → IsTable t → IsTable (unregister_loop x t).1
unregister-IsTable x t h = record {
  size = length-unregister x t ∙ h.size;
  entries = AllOk-unregister x t h.entries;
}
