-- ===== src/Ringbuf/View.antt =====
-- The rings of src/tt_ringbuf.c with a size, up to what a client can read of them. As a type they are the
-- bounded queues: a client cannot tell where in the memory the bytes stand.
use std.Equiv.{Iso, iso_to_equiv}
use std.Univalence.{iso_to_path, ua-β}
use std.Path.{transport}
use mathlib.Core.Quot
use mathlib.Core.Quot.{Quot, Quot-set}
use mathlib.Core.HLevel.{Σ_prop_path}
use mathlib.Core.List.{append-nil, append_assoc}
use native.Mathlib.Bridge.{le_prop}
use tinytools.Prelude.{
  ℕ, ◌+◌, ◌^◌, ◌≤◌, ◌<◌, ◌≡◌, refl, sym, ap, ◌∙◌, Option, none, some, List, [], ◌∷◌, ◌++◌, length,
  length-append, arith,
}
use tinytools.Types.{success}
use tinytools.Ringbuf.{Ringbuf, init, step}
use tinytools.Ringbuf.Queue
use tinytools.Ringbuf.Queue.{Queue, Call, put}
use tinytools.Ringbuf.Invariant.{IsValidAt, init-IsValid}
use tinytools.Ringbuf.Refine.{contents_at, size_at, step-Refines, length-contents}

-- The bounded queues.
abbrev pub Bounded : ℕ → Type 0
Bounded n = (q : Queue) × (length q ≤ n)

Bounded-IsSet : (n : ℕ) → IsSet (Bounded n)
Bounded-IsSet n = hlevel le_prop

-- A pointer to a valid ring of a size.
abbrev pub Ring : ℕ → Type 0
Ring n = (rb : Option Ringbuf) × IsValidAt rb × (size_at rb ≡ n)

-- The bytes that reads would deliver are the same.
abbrev pub SameBytes : {n : ℕ} → Ring n → Ring n → Type 0
SameBytes r s = contents_at r.0 ≡ contents_at s.0

abbrev pub View : ℕ → Type 0
View n = Quot (SameBytes {n = n})

-- What a call leaves of a ring.
pub after : {n : ℕ} → Call → Ring n → Ring n
after c (none, v, e) = absurd v
after c (some rb, v, e) = let r = step-Refines c v in ((step (some rb) c).1, r.valid, r.fixed ∙ e)

contents-after :
    {n : ℕ} (c : Call) (r : Ring n)
    → contents_at (after c r).0 ≡ (Queue.step n (contents_at r.0) c).1
unfolding after
contents-after c (none, v, e) = absurd v
contents-after c (some rb, v, e) =
    ap (λ out. out.1) (step-Refines c v).same
    ∙ ap (λ n. (Queue.step n (contents_at (some rb)) c).1) e

reply-after :
    {n : ℕ} (c : Call) (r : Ring n) → (step r.0 c).0 ≡ (Queue.step n (contents_at r.0) c).0
reply-after c (none, v, e) = absurd v
reply-after c (some rb, v, e) =
    ap (λ out. out.0) (step-Refines c v).same
    ∙ ap (λ n. (Queue.step n (contents_at (some rb)) c).0) e

Queue-IsSet : IsSet Queue
Queue-IsSet = hlevel

contents-le : {n : ℕ} (r : Ring n) → length (contents_at r.0) ≤ n
contents-le (none, v, e) = absurd v
contents-le (some rb, v, e) = omega (arith, length-contents rb, v.count_in, e)

-- The same on what a client can tell.
pub after_view : (n : ℕ) → Call → View n → View n
after_view n c =
    Quot.lift Quot-set (λ r. Quot.mk (after c r))
      (λ r s same.
        Quot.sound
          (contents-after c r ∙ ap (λ q. (Queue.step n q c).1) same ∙ sym (contents-after c s)))

-- Bytes written one after another.
abbrev pub fill : {n : ℕ} → Queue → Ring n → Ring n
fill [] r = r
fill (x ∷ q) r = fill q (after (put x) r)

step-put : {n : ℕ} (b : Queue) (x : ℕ) → length b < n → (Queue.step n b (put x)).1 ≡ b ++ (x ∷ [])
unfolding Queue.step Queue.push
step-put b x lt = ground arith

contents-fill :
    {n : ℕ} (q : Queue) (r : Ring n)
    → length (contents_at r.0) + length q ≤ n
    → contents_at (fill q r).0 ≡ contents_at r.0 ++ q
contents-fill [] r h = sym (append-nil (contents_at r.0))
contents-fill {n} (x ∷ q) r h =
    let here : contents_at (after (put x) r).0 ≡ contents_at r.0 ++ (x ∷ []) =
      contents-after (put x) r ∙ step-put (contents_at r.0) x (omega arith) in
    contents-fill q (after (put x) r)
      (omega (arith, ap length here, length-append (contents_at r.0) (x ∷ [])))
    ∙ ap (λ b. b ++ q) here
    ∙ append_assoc (contents_at r.0) (x ∷ []) q

-- The views are as a type the bounded queues, by a path that carries a ring to its contents and each call
-- to the queue's call, and every queue is that of bytes written to the ring `start`.
pub record AreQueues (n : ℕ) (start : Ring n) : Type 1 where
  pub path : View n ≡ Bounded n
  pub held : (r : Ring n) → (transport path (Quot.mk r)).0 ≡ contents_at r.0
  pub replies :
      (c : Call) (r : Ring n) → (step r.0 c).0 ≡ (Queue.step n (transport path (Quot.mk r)).0 c).0
  pub states :
      (c : Call) (v : View n)
      → (transport path (after_view n c v)).0 ≡ (Queue.step n (transport path v).0 c).1
  pub every : (q : Bounded n) → transport path (Quot.mk (fill q.0 start)) ≡ q

abbrev pub blank : List ℕ → ℕ → Ringbuf
blank memory n = record { buffer = memory; size = n; head = 0; tail = 0; count = 0 }

init-blank :
    (rb : Ringbuf) (memory : List ℕ) (n : ℕ)
    → 0 < n
    → init (some rb) (some memory) n ≡ (success, some (blank memory n))
unfolding init
init-blank rb memory n pos = ground arith

module _ (n : ℕ) (pos : 0 < n) (word : n < 2 ^ 64) (rb : Ringbuf) (memory : List ℕ)
    (lent : n ≤ length memory) where
  -- A ring that `tt_ringbuf_init` makes of memory of `n` bytes or more, whatever the record held.
  pub made : Ring n
  made =
      let ready = init-IsValid rb memory n word lent (init-blank rb memory n pos) in
      (
        (init (some rb) (some memory) n).1,
        rw (init-blank rb memory n pos) ready.0,
        rw (init-blank rb memory n pos) refl,
      )

  contents-made : contents_at made.0 ≡ []
  unfolding made
  contents-made = rw (init-blank rb memory n pos) refl

  -- What the views and the bounded queues have to do with each other.
  pub bytes : View n → Bounded n
  bytes =
      Quot.lift (Bounded-IsSet n) (λ r. (contents_at r.0, contents-le r))
        (λ r s same. Σ_prop_path (λ q. le_prop) same)

  pub filled : Bounded n → View n
  filled (q, le) = Quot.mk (fill q made)

  contents-filled : (q : Queue) → length q ≤ n → contents_at (fill q made).0 ≡ q
  contents-filled q le =
      contents-fill q made (omega (arith, ap length contents-made)) ∙ ap (λ b. b ++ q) contents-made

  pub View-Iso : Iso (View n) (Bounded n)
  unfolding bytes filled
  View-Iso = record {
    fun = bytes;
    inv = filled;
    rinv = λ (q, le). Σ_prop_path (λ q. le_prop) (contents-filled q le);
    linv =
        Quot.ind (λ v. Quot-set _ _)
          (λ r. Quot.sound (contents-filled (contents_at r.0) (contents-le r)));
  }

  -- The path carries a view to its bytes.
  transport-bytes : (v : View n) → transport (iso_to_path View-Iso) v ≡ bytes v
  unfolding View-Iso
  transport-bytes = ua-β (iso_to_equiv View-Iso)

  bytes-after :
      (c : Call) (v : View n) → (bytes (after_view n c v)).0 ≡ (Queue.step n (bytes v).0 c).1
  unfolding bytes after_view
  bytes-after c = Quot.ind (λ v. Queue-IsSet _ _) (λ r. contents-after c r)

  -- A client sees of a ring no more and no less than a bounded queue: for a size from 1 that fits
  -- `size_t`, the valid rings of the size, up to the bytes that they would deliver, are as a type the
  -- queues of at most so many bytes. The path between the types carries a ring to its contents, the
  -- reply to a call is that of the queue to which the path carries the ring, and what the call leaves
  -- is carried to what the queue's call leaves. In particular every such queue is that of a ring which
  -- `tt_ringbuf_init` and `tt_ringbuf_write` make.
  pub views-AreQueues : AreQueues n made
  unfolding bytes filled
  views-AreQueues = record {
    path = iso_to_path View-Iso;
    held = λ r. ap (λ b. b.0) (transport-bytes (Quot.mk r));
    replies = λ c r.
        reply-after c r ∙ ap (λ b. (Queue.step n b.0 c).0) (sym (transport-bytes (Quot.mk r)));
    states = λ c v.
        ap (λ b. b.0) (transport-bytes (after_view n c v))
        ∙ bytes-after c v
        ∙ ap (λ b. (Queue.step n b.0 c).1) (sym (transport-bytes v));
    every = λ (q, le).
        transport-bytes (Quot.mk (fill q made)) ∙ Σ_prop_path (λ q. le_prop) (contents-filled q le);
  }
