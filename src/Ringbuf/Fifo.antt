-- ===== src/Ringbuf/Fifo.antt =====
-- What a client of src/tt_ringbuf.c gets back: bytes come out as they went in, and NULL is refused.
use mathlib.Core.List.{append-nil, append_assoc}
use tinytools.Prelude.{
  ℕ, ◌+◌, ◌≤◌, ◌≡◌, refl, ◌∙◌, ap, true, none, some, List, [], ◌∷◌, ◌++◌, map, length,
  length-append, arith,
}
use tinytools.Types.{success, null_pointer}
use tinytools.Ringbuf.{Ringbuf, write, read, count_of, is_empty, is_full, step, run}
use tinytools.Ringbuf.Queue
use tinytools.Ringbuf.Queue.{
  Queue, Call, put, get, ask_count, ask_empty, ask_full, Reply, status, got, number, answer,
}
use tinytools.Ringbuf.Invariant.{IsValid}
use tinytools.Ringbuf.Refine.{contents, run_refines, length-contents}

abbrev accepted : ℕ → Reply
accepted x = status success

abbrev delivered : ℕ → Reply
delivered x = got success (some x)

module _ (cap old : ℕ) where
  queue_gets : (q : Queue) → Queue.run cap q (map (λ _. get old) q) ≡ map delivered q
  unfolding Queue.run Queue.step Queue.pop
  queue_gets [] = refl
  queue_gets (x ∷ q) = ap (λ r. delivered x ∷ r) (queue_gets q)

  queue_push :
      (q : Queue) (x : ℕ)
      → length q + 1 ≤ cap
      → Queue.push cap q x ≡ (status success, q ++ (x ∷ []))
  unfolding Queue.push
  queue_push q x h = ground arith

  queue_roundtrip :
      (xs : List ℕ) (q : Queue)
      → length q + length xs ≤ cap
      → Queue.run cap q (map put xs ++ map (λ _. get old) (q ++ xs))
        ≡ map accepted xs ++ map delivered (q ++ xs)
  unfolding Queue.run Queue.step
  queue_roundtrip [] q h = rw append-nil (queue_gets q)
  queue_roundtrip (x ∷ xs) q h =
      let ih = queue_roundtrip xs (q ++ (x ∷ [])) (omega (arith, length-append q (x ∷ []))) in
      rw (queue_push q x (omega arith), ← append_assoc q (x ∷ []) xs) (ap (λ r. accepted x ∷ r) ih)

-- Bytes come out in the order in which they went in: on a valid ring with room for `xs`, writing
-- `xs` and then reading as often as there are bytes delivers what the ring held, then `xs`, and
-- every call succeeds.
pub read-write :
    {rb : Ringbuf} (old : ℕ) (xs : List ℕ)
    → IsValid rb
    → rb.count + length xs ≤ rb.size
    → run (some rb) (map put xs ++ map (λ _. get old) (contents rb ++ xs))
      ≡ map accepted xs ++ map delivered (contents rb ++ xs)
read-write {rb} old xs v h =
    run_refines (map put xs ++ map (λ _. get old) (contents rb ++ xs)) v
    ∙ queue_roundtrip rb.size old xs (contents rb) (omega (arith, length-contents rb))

-- What NULL answers: the writers refuse it, the counters see an empty ring that is also full.
abbrev null_reply : Call → Reply
null_reply (put byte) = status null_pointer
null_reply (get old) = got null_pointer (some old)
null_reply ask_count = number 0
null_reply ask_empty = answer true
null_reply ask_full = answer true

step-null : (c : Call) → step none c ≡ (null_reply c, none)
unfolding step write read count_of is_empty is_full
step-null (put byte) = refl
step-null c = refl

-- Every sequence of calls on a NULL ring is answered call by call, with no access to memory: writes
-- and reads report the NULL pointer and leave `*data` alone, the count is 0, and it counts as empty
-- and as full.
pub run-null : (calls : List Call) → run none calls ≡ map null_reply calls
unfolding run
run-null [] = refl
run-null (c ∷ calls) = rw (step-null c, run-null calls)
