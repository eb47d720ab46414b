-- ===== src/Mutex/Spin/Shared/Logs.antt =====
-- Calls on shared data one after another, as a log has them, and calls that are cut into passes.

use tinytools.Prelude.{◌⊎◌, inl, inr, ℕ, suc, ◌≡◌, refl, sym, ap, ◌∙◌, List, [], ◌∷◌, ◌++◌}
use tinytools.Mutex.Spin.Shared.{Pass, goes_on, ends, faults}

abbrev pub calls : {Op Result : Type 0} → List (Op × Result) → List Op
calls [] = []
calls ((c, e) ∷ log) = c ∷ calls log

abbrev pub answers : {Op Result : Type 0} → List (Op × Result) → List Result
answers [] = []
answers ((c, e) ∷ log) = e ∷ answers log

-- One call after another: the results, and the data at the end.
abbrev pub run_all :
    {Op Result Data : Type 0} → (Op → Data → Result × Data) → List Op → Data → List Result × Data
run_all body [] d = ([], d)
run_all body (c ∷ cs) d =
    let (e, d') = body c d in let (es, d'') = run_all body cs d' in (e ∷ es, d'')

pub answers-snoc :
    {Op Result : Type 0} (log : List (Op × Result)) (c : Op) (e : Result)
    → answers (log ++ ((c, e) ∷ [])) ≡ answers log ++ (e ∷ [])
answers-snoc [] c e = refl
answers-snoc ((d, f) ∷ log) c e = ap (λ es. f ∷ es) (answers-snoc log c e)

last_of : {A : Type 0} → A → List A → A
last_of none [] = none
last_of none (x ∷ xs) = last_of x xs

last_of-snoc : {A : Type 0} (none : A) (xs : List A) (x : A) → last_of none (xs ++ (x ∷ [])) ≡ x
unfolding last_of
last_of-snoc none [] x = refl
last_of-snoc none (y ∷ ys) x = last_of-snoc y ys x

-- Two lists that end alike.
pub last-snoc : {A : Type 0} (xs ys : List A) (x y : A) → xs ++ (x ∷ []) ≡ ys ++ (y ∷ []) → x ≡ y
last-snoc xs ys x y e = sym (last_of-snoc x xs x) ∙ ap (last_of x) e ∙ last_of-snoc x ys y

pub Pass-cases :
    {Result Data : Type 0} (p : Pass Result Data)
    → ((d : Data) × (p ≡ goes_on d)) ⊎ ((a : Result) × (d : Data) × (p ≡ ends a d)) ⊎ (p ≡ faults)
Pass-cases (goes_on d) = inl (d, refl)
Pass-cases (ends a d) = inr (inl (a, d, refl))
Pass-cases faults = inr (inr refl)

-- The passes of a call are together the call: `body` is all of it, and `from` what is left of it from the
-- pass with a number on.
pub record Divides {Op Result Data : Type 0} (pass : Op → ℕ → Data → Pass Result Data)
    : Type 0 where
  pub body : Op → Data → Result × Data
  pub from : Op → ℕ → Data → Result × Data
  pub all : (c : Op) (d : Data) → from c 0 d ≡ body c d
  pub rest :
      (c : Op) (k : ℕ) (d d' : Data) → pass c k d ≡ goes_on d' → from c (suc k) d' ≡ from c k d
  pub last :
      (c : Op) (k : ℕ) (d : Data) (result : Result) (d' : Data)
      → pass c k d ≡ ends result d'
      → from c k d ≡ (result, d')

module _ {Op Result Data : Type 0} (pass : Op → ℕ → Data → Pass Result Data)
    (IsProper : Op → Type 0) (law : Divides pass) where
  abbrev pub Log : Type 0
  Log = List (Op × Result)

  abbrev pub AllProper : Log → Type 0
  AllProper [] = Unit
  AllProper ((c, e) ∷ log) = IsProper c × AllProper log

  -- What the calls of a log leave of the first data.
  abbrev pub committed : Log → Data → Data
  committed log first = (run_all law.body (calls log) first).1

  pub run_all-snoc :
      (log : Log) (c : Op) (e : Result) (d : Data)
      → let (es, u) = run_all law.body (calls log) d in
        let (result, u') = law.body c u in
        run_all law.body (calls (log ++ ((c, e) ∷ []))) d ≡ (es ++ (result ∷ []), u')
  run_all-snoc [] c e d = refl
  run_all-snoc ((b, f) ∷ log) c e d =
      ap (λ r. ((law.body b d).0 ∷ r.0, r.1)) (run_all-snoc log c e (law.body b d).1)

  pub AllProper-snoc :
      (log : Log) (c : Op) (e : Result)
      → AllProper log
      → IsProper c
      → AllProper (log ++ ((c, e) ∷ []))
  AllProper-snoc [] c e all proper = (proper, tt)
  AllProper-snoc ((b, f) ∷ log) c e (here, all) proper = (here, AllProper-snoc log c e all proper)

  pub AllProper-split :
      (log : List (Op × Result)) (c : Op) (e : Result)
      → AllProper (log ++ ((c, e) ∷ []))
      → AllProper log × IsProper c
  AllProper-split [] c e (proper, all) = (tt, proper)
  AllProper-split ((b, f) ∷ log) c e (here, all) =
      let (before, proper) = AllProper-split log c e all in ((here, before), proper)
