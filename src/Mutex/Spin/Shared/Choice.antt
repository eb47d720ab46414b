-- ===== src/Mutex/Spin/Shared/Choice.antt =====
-- Calls of two kinds on the same shared data, behind one general mutex.
use tinytools.Prelude.{refl, ◌≢◌, ℕ, suc, ◌≡◌, ◌⊎◌, inl, inr, ap, ◌∙◌, arith, ◌<◌}
use tinytools.Mutex.Spin.Shared.{Pass, goes_on, ends, faults}
use tinytools.Mutex.Spin.Shared.Logs.{Divides}
use tinytools.Mutex.Spin.Shared.Ending.{Bounded}

-- A pass with its result under another name.
abbrev pub relabel : {R S D : Type 0} → (R → S) → Pass R D → Pass S D
relabel f (goes_on d) = goes_on d
relabel f (ends r d) = ends (f r) d
relabel f faults = faults

relabel-goes_on :
    {R S D : Type 0} (f : R → S) (x : Pass R D) (d : D) → relabel f x ≡ goes_on d → x ≡ goes_on d
relabel-goes_on f (goes_on e) d h = ground arith
relabel-goes_on f (ends r e) d h = absurd (ground arith)
relabel-goes_on f faults d h = absurd (ground arith)

pub relabel-ends :
    {R S D : Type 0} (f : R → S) (x : Pass R D) (s : S) (d : D)
    → relabel f x ≡ ends s d
    → (r : R) × (x ≡ ends r d) × (f r ≡ s)
relabel-ends f (goes_on e) s d h = absurd (ground arith)
relabel-ends f (ends r e) s d h = (r, ground arith, ground arith)
relabel-ends f faults s d h = absurd (ground arith)

relabel-faults : {R S D : Type 0} (f : R → S) (x : Pass R D) → relabel f x ≡ faults → x ≡ faults
relabel-faults f (goes_on d) h = absurd (ground arith)
relabel-faults f (ends r d) h = absurd (ground arith)
relabel-faults f faults h = refl

module _ {A B R S D : Type 0} (p : A → ℕ → D → Pass R D) (q : B → ℕ → D → Pass S D) where
  unfoldable pub choice : A ⊎ B → ℕ → D → Pass (R ⊎ S) D
  choice (inl a) k d = relabel inl (p a k d)
  choice (inr b) k d = relabel inr (q b k d)

  module _ (dp : Divides p) (dq : Divides q) where
    unfoldable pub body : A ⊎ B → D → (R ⊎ S) × D
    body (inl a) d = let (r, d') = dp.body a d in (inl r, d')
    body (inr b) d = let (s, d') = dq.body b d in (inr s, d')

    unfoldable pub from : A ⊎ B → ℕ → D → (R ⊎ S) × D
    from (inl a) k d = let (r, d') = dp.from a k d in (inl r, d')
    from (inr b) k d = let (s, d') = dq.from b k d in (inr s, d')

    pub from-body : (c : A ⊎ B) (d : D) → from c 0 d ≡ body c d
    unfolding from body
    from-body (inl a) d = ap (λ x. (inl x.0, x.1)) (dp.all a d)
    from-body (inr b) d = ap (λ x. (inr x.0, x.1)) (dq.all b d)

    pub from-goes_on :
        (c : A ⊎ B) (k : ℕ) (d d' : D) → choice c k d ≡ goes_on d' → from c (suc k) d' ≡ from c k d
    unfolding from choice
    from-goes_on (inl a) k d d' h =
        ap (λ x. (inl x.0, x.1)) (dp.rest a k d d' (relabel-goes_on inl (p a k d) d' h))
    from-goes_on (inr b) k d d' h =
        ap (λ x. (inr x.0, x.1)) (dq.rest b k d d' (relabel-goes_on inr (q b k d) d' h))

    pub from-ends :
        (c : A ⊎ B) (k : ℕ) (d : D) (result : R ⊎ S) (d' : D)
        → choice c k d ≡ ends result d'
        → from c k d ≡ (result, d')
    unfolding from choice
    from-ends (inl a) k d result d' h =
        let (r, e, same) = relabel-ends inl (p a k d) result d' h in
        ap (λ x. (inl x.0, x.1)) (dp.last a k d r d' e) ∙ ap (λ x. (x, d')) same
    from-ends (inr b) k d result d' h =
        let (s, e, same) = relabel-ends inr (q b k d) result d' h in
        ap (λ x. (inr x.0, x.1)) (dq.last b k d s d' e) ∙ ap (λ x. (x, d')) same

    -- If the passes of each kind are together its calls, so are those of both.
    abbrev pub choice-Divides : Divides choice
    choice-Divides = record {
      body = body;
      from = from;
      all = from-body;
      rest = from-goes_on;
      last = from-ends;
    }

  module _ (bp : Bounded p) (bq : Bounded q) where
    abbrev pub left : A ⊎ B → ℕ → D → ℕ
    left (inl a) k d = bp.left a k d
    left (inr b) k d = bq.left b k d

    pub left-shrinks :
        (c : A ⊎ B) (k : ℕ) (d d' : D) → choice c k d ≡ goes_on d' → left c (suc k) d' < left c k d
    unfolding choice
    left-shrinks (inl a) k d d' h = bp.shrinks a k d d' (relabel-goes_on inl (p a k d) d' h)
    left-shrinks (inr b) k d d' h = bq.shrinks b k d d' (relabel-goes_on inr (q b k d) d' h)

    pub choice-safe : (c : A ⊎ B) (k : ℕ) (d : D) → choice c k d ≢ faults
    unfolding choice
    choice-safe (inl a) k d h = bp.safe a k d (relabel-faults inl (p a k d) h)
    choice-safe (inr b) k d h = bq.safe b k d (relabel-faults inr (q b k d) h)

    abbrev pub choice-Bounded : Bounded choice
    choice-Bounded = record { left = left; shrinks = left-shrinks; safe = choice-safe }
