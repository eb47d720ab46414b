-- ===== src/Thread/Api/Heaps.antt =====
-- Heaps of threads in which a thread is terminated exactly when it is no longer active, and their changes.
use mathlib.Core.Path.{subst}
use tinytools.Prelude.{ℕ, ◌≡◌, ◌≢◌, sym, not, Option, none, some, ℕ_discrete}
use tinytools.Prelude.Threads.{update, update_self, update_ne}
use tinytools.Thread.Data.{is_terminated, Thread}

-- Terminated exactly when not active.
abbrev pub Ok : Thread → Type 0
Ok t = is_terminated t.state ≡ not t.is_active

abbrev pub OkAt : Option Thread → Type 0
OkAt none = Unit
OkAt (some t) = Ok t

abbrev pub IsConsistent : (ℕ → Option Thread) → Type 0
IsConsistent heap = (a : ℕ) → OkAt (heap a)

-- What a consistent heap says of the thread at an address.
pub at : (h : ℕ → Option Thread) (a : ℕ) (t : Thread) → IsConsistent h → h a ≡ some t → Ok t
at h a t ok e = subst OkAt e (ok a)

-- A heap that is another but for one cell.
pub except :
    (h h0 : ℕ → Option Thread) (a : ℕ)
    → IsConsistent h0
    → ((b : ℕ) → b ≢ a → h b ≡ h0 b)
    → OkAt (h a)
    → IsConsistent h
except h h0 a ok same here b = elim (ℕ_discrete b a) [
  | yes eq ↦ subst (λ c. OkAt (h c)) (sym eq) here
  | no n ↦ subst OkAt (sym (same b n)) (ok b)
]

-- The cell becomes `c`.
pub put :
    (h : ℕ → Option Thread) (a : ℕ) (c : Option Thread)
    → IsConsistent h
    → OkAt c
    → IsConsistent (update h a c)
put h a c ok here =
    except (update h a c) h a ok (λ b n. update_ne h a c b (λ e. n (sym e)))
      (subst OkAt (sym (update_self h a c)) here)

pub drop : (h : ℕ → Option Thread) (a : ℕ) → IsConsistent h → IsConsistent (update h a none)
drop h a ok = put h a none ok tt
