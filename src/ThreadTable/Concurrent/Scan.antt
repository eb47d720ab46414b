-- ===== src/ThreadTable/Concurrent/Scan.antt =====
-- The loops of src/tt_thread_internal.c, pass by pass, against the loops as a whole.
use tinytools.Prelude.{ℕ, zero, suc, ◌≡◌, inl, inr, refl, ap, ◌∙◌, [], ◌∷◌, arith}
use tinytools.Types.{TtError, success, not_found}
use tinytools.ThreadTable.{
  Table, zeroed, register_loop, unregister_loop, Call, registers, unregisters, cleans_up,
}
use tinytools.Mutex.Spin.Shared.{goes_on, ends}
use tinytools.Mutex.Spin.Shared.Logs.{Divides, Pass-cases}
use tinytools.ThreadTable.Concurrent.{register_pass, unregister_pass, pass}

-- The whole of what a call does to the table.
unfoldable pub body : Call → Table → TtError × Table
body (registers thread) t = register_loop thread t
body (unregisters thread) t = unregister_loop thread t
body cleans_up t = (success, zeroed)

-- The same from the entry with a number on.
unfoldable pub from : Call → ℕ → Table → TtError × Table
from c zero t = body c t
from (registers thread) (suc k) [] = (not_found, [])
from (unregisters thread) (suc k) [] = (not_found, [])
from (registers thread) (suc k) (e ∷ es) =
    let (result, es') = from (registers thread) k es in (result, e ∷ es')
from (unregisters thread) (suc k) (e ∷ es) =
    let (result, es') = from (unregisters thread) k es in (result, e ∷ es')
from cleans_up (suc k) t = (success, zeroed)

-- A pass that goes on leaves the table as it is, and the work to the entries after it.
pub same_table : (c : Call) (k : ℕ) (t t' : Table) → pass c k t ≡ goes_on t' → t' ≡ t
unfolding pass register_pass unregister_pass
same_table (registers x) k [] t' h = absurd (ground arith)
same_table (registers x) zero (e ∷ es) t' h = ground arith
same_table (registers x) (suc k) (e ∷ es) t' h = elim (Pass-cases (register_pass x k es)) [
  | inl (u, more) ↦ ground (arith, same_table (registers x) k es u more)
  | inr (inl (r, u, last)) ↦ absurd (ground arith)
  | inr (inr fault) ↦ absurd (ground arith)
]
same_table (unregisters x) k [] t' h = absurd (ground arith)
same_table (unregisters x) zero (e ∷ es) t' h = ground arith
same_table (unregisters x) (suc k) (e ∷ es) t' h = elim (Pass-cases (unregister_pass x k es)) [
  | inl (u, more) ↦ ground (arith, same_table (unregisters x) k es u more)
  | inr (inl (r, u, last)) ↦ absurd (ground arith)
  | inr (inr fault) ↦ absurd (ground arith)
]
same_table cleans_up k t t' h = absurd (ground arith)

pub from-pass :
    (c : Call) (k : ℕ) (t : Table) → pass c k t ≡ goes_on t → from c (suc k) t ≡ from c k t
unfolding pass from body register_pass unregister_pass register_loop unregister_loop
from-pass (registers x) k [] h = absurd (ground arith)
from-pass (registers x) zero (e ∷ es) h = ground arith
from-pass (registers x) (suc k) (e ∷ es) h = elim (Pass-cases (register_pass x k es)) [
  | inl (u, more) ↦
      let same = same_table (registers x) k es u more in
      ground (arith, same, from-pass (registers x) k es (more ∙ ap goes_on same))
  | inr (inl (r, u, last)) ↦ absurd (ground arith)
  | inr (inr fault) ↦ absurd (ground arith)
]
from-pass (unregisters x) k [] h = absurd (ground arith)
from-pass (unregisters x) zero (e ∷ es) h = ground arith
from-pass (unregisters x) (suc k) (e ∷ es) h = elim (Pass-cases (unregister_pass x k es)) [
  | inl (u, more) ↦
      let same = same_table (unregisters x) k es u more in
      ground (arith, same, from-pass (unregisters x) k es (more ∙ ap goes_on same))
  | inr (inl (r, u, last)) ↦ absurd (ground arith)
  | inr (inr fault) ↦ absurd (ground arith)
]
from-pass cleans_up k t h = absurd (ground arith)

-- A pass that ends has done all of it.
pub from-ends :
    (c : Call) (k : ℕ) (t : Table) (result : TtError) (t' : Table)
    → pass c k t ≡ ends result t'
    → from c k t ≡ (result, t')
unfolding pass from body register_pass unregister_pass register_loop unregister_loop
from-ends (registers x) zero [] result t' h = ground arith
from-ends (registers x) (suc k) [] result t' h = ground arith
from-ends (registers x) zero (e ∷ es) result t' h = ground arith
from-ends (registers x) (suc k) (e ∷ es) result t' h = elim (Pass-cases (register_pass x k es)) [
  | inl (u, more) ↦ absurd (ground arith)
  | inr (inl (r, u, last)) ↦ ground (arith, from-ends (registers x) k es r u last)
  | inr (inr fault) ↦ absurd (ground arith)
]
from-ends (unregisters x) zero [] result t' h = ground arith
from-ends (unregisters x) (suc k) [] result t' h = ground arith
from-ends (unregisters x) zero (e ∷ es) result t' h = ground arith
from-ends (unregisters x) (suc k) (e ∷ es) result t' h =
    elim (Pass-cases (unregister_pass x k es)) [
      | inl (u, more) ↦ absurd (ground arith)
      | inr (inl (r, u, last)) ↦ ground (arith, from-ends (unregisters x) k es r u last)
      | inr (inr fault) ↦ absurd (ground arith)
    ]
from-ends cleans_up zero t result t' h = ground arith
from-ends cleans_up (suc k) t result t' h = ground arith

-- The passes of each call are together its loop.
unfoldable pub pass-Divides : Divides pass
unfolding from
pass-Divides = record {
  body = body;
  from = from;
  all = λ c t. refl;
  rest = λ c k t t' h.
      let same = same_table c k t t' h in rw same (from-pass c k t (h ∙ ap goes_on same));
  last = from-ends;
}
