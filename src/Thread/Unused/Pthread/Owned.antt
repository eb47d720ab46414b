-- ===== src/Thread/Unused/Pthread/Owned.antt =====
-- Lines 136 to 457 of src/tt_thread.c on Linux: who owns which cell of memory, and how that changes.
use tinytools.Prelude.{
  ℕ, ◌<◌, ◌≡◌, ◌≢◌, Bool, true, false, Option, none, some, ◌||◌, if◌then◌else◌, arith, length,
}
use tinytools.Prelude.Threads.{update}
use tinytools.ThreadTable.{Table, register_loop, unregister_loop}
use tinytools.ThreadTable.Loops.{copies, used}
use tinytools.ThreadTable.Bag.{register-Registered, unregister-Unregistered}
use tinytools.Thread.Data.{Thread}

abbrev pub has {ℓ} : {A : Type ℓ} → Option A → Bool
has none = false
has (some _) = true

abbrev pub handle_of : Option Thread → ℕ
handle_of none = 0
handle_of (some t) = t.handle

-- The allocated cells are the threads on the heap and the cells with their handles; each thread has a
-- handle of its own, each such cell belongs to a thread, and the table lists each thread once.
pub record IsOwned (h : ℕ → Option Thread) (c : ℕ → Option ℕ) (live : ℕ → Bool) (table : Table)
    : Type 0 where
  pub owner : ℕ → ℕ
  pub memory : (b : ℕ) → live b ≡ (has (h b) || has (c b))
  pub apart : (b : ℕ) → has (h b) ≡ true → has (c b) ≡ false
  pub handle :
      (a : ℕ)
      → has (h a) ≡ true
      → (has (c (handle_of (h a))) ≡ true) × (owner (handle_of (h a)) ≡ a)
  pub owned :
      (b : ℕ) → has (c b) ≡ true → (has (h (owner b)) ≡ true) × (handle_of (h (owner b)) ≡ b)
  pub listed : (a : ℕ) → copies a table ≡ (if has (h a) then 1 else 0)
  pub no_null : h 0 ≡ none

-- A cell that is not allocated holds nothing.
pub vacant :
    (h : ℕ → Option Thread) (c : ℕ → Option ℕ) (live : ℕ → Bool) (table : Table) (b : ℕ)
    → IsOwned h c live table
    → live b ≡ false
    → (h b ≡ none) × (c b ≡ none)
vacant h c live table b o free = let m = o.memory b in ground (arith, m)

-- What a well-kept memory becomes.
module _ (h : ℕ → Option Thread) (c : ℕ → Option ℕ) (live : ℕ → Bool) (table : Table)
    (o : IsOwned h c live table) where
  -- The same everywhere.
  pub IsOwned-same :
      (h' : ℕ → Option Thread) (c' : ℕ → Option ℕ) (live' : ℕ → Bool) (table' : Table)
      → ((b : ℕ) → h' b ≡ h b)
      → ((b : ℕ) → c' b ≡ c b)
      → ((b : ℕ) → live' b ≡ live b)
      → table' ≡ table
      → IsOwned h' c' live' table'
  IsOwned-same h' c' live' table' eh ec el et = record {
    owner = o.owner;
    memory = λ b. rw (eh b, ec b, el b) (o.memory b);
    apart = λ b. rw (eh b, ec b) (o.apart b);
    handle = λ a. rw (eh a, ec (handle_of (h a))) (o.handle a);
    owned = λ b. rw (ec b, eh (o.owner b)) (o.owned b);
    listed = λ a. rw (et, eh a) (o.listed a);
    no_null = rw (eh 0) o.no_null;
  }

  -- A thread is changed, but not its handle.
  pub IsOwned-change :
      (a : ℕ) (t t' : Thread)
      → h a ≡ some t
      → t'.handle ≡ t.handle
      → IsOwned (update h a (some t')) c live table
  IsOwned-change a t t' held same = record {
    owner = o.owner;
    memory = λ b. ground (arith, o.memory b);
    apart = λ b p. ground (arith, o.apart b);
    handle = λ b p. ground (arith, o.handle b, o.handle a);
    owned = λ b p. ground (arith, o.owned b);
    listed = λ b. ground (arith, o.listed b);
    no_null = ground (arith, o.no_null);
  }

  -- A thread `t` at `a`, with a handle in the cell `b`, is made.
  pub IsOwned-make :
      (a b p : ℕ) (t : Thread)
      → a ≢ 0
      → live a ≡ false
      → update live a true b ≡ false
      → t.handle ≡ b
      → used table < length table
      → IsOwned
          (update h a (some t))
          (update c b (some p))
          (update (update live a true) b true)
          (register_loop a table).1
  IsOwned-make a b p t n free free' handle room =
      let (ha, ca) = vacant h c live table a o free in
      let ne : b ≢ a = λ e. absurd (ground arith) in
      let freeb : live b ≡ false = ground arith in
      let (hb, cb) = vacant h c live table b o freeb in
      record {
        owner = update o.owner b a;
        memory = λ x. ground (arith, o.memory x);
        apart = λ x q. ground (arith, o.apart x);
        handle = λ x q. ground (arith, o.handle x);
        owned = λ x q. ground (arith, o.owned x);
        listed = λ x. ground (arith, o.listed x, register-Registered a x table room);
        no_null = ground (arith, o.no_null);
      }

  -- A thread that is there, and the cell with its handle, are given up.
  pub IsOwned-drop :
      (a : ℕ) (t : Thread)
      → h a ≡ some t
      → IsOwned
          (update h a none)
          (update c t.handle none)
          (update (update live t.handle false) a false)
          (unregister_loop a table).1
  IsOwned-drop a t held =
      let there : 0 < copies a table = ground (arith, o.listed a) in
      record {
        owner = o.owner;
        memory = λ x. ground (arith, o.memory x, o.handle a, o.apart a, o.apart x);
        apart = λ x q. ground (arith, o.apart x);
        handle = λ x q. ground (arith, o.handle x, o.handle a);
        owned = λ x q. ground (arith, o.owned x);
        listed = λ x. ground (arith, o.listed x, unregister-Unregistered a x table there);
        no_null = ground (arith, o.no_null);
      }
