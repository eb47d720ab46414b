-- ===== src/Ringbuf/Refine.antt =====
-- A valid ring answers every call as the bounded queue of the bytes that it holds.
use native.Mathlib.Nat.{mod-add-mod, mod-eq_of_lt, mod-eq-sub-mod, add-zero}
use mathlib.Core.Path.{ap₂}
use tinytools.Prelude.{
  ℕ, zero, suc, ◌+◌, ◌-◌, ◌%◌, ◌≤◌, ◌<◌, ◌≡◌, refl, ◌∙◌, ap, ◌≢◌, Option, none, some, List, [], ◌∷◌,
  ◌++◌, length, get_or, set, get_or_default, get_or-set_self, get_or-set_ne, dec_lt, arith,
}
use tinytools.Ringbuf.{Ringbuf, write, read, count_of, is_empty, is_full, step, run}
use tinytools.Ringbuf.Queue
use tinytools.Ringbuf.Queue.{
  Queue, Call, put, get, ask_count, ask_empty, ask_full, Reply, status, got,
}
use tinytools.Ringbuf.Invariant.{IsValid, IsValidAt, advance_lem, write-IsValid, read-IsValid}

module _ (buffer : List ℕ) (size : ℕ) where
  -- The `n` bytes that start at index `i` and go on at 0 after the last.
  abbrev pub bytes_from : ℕ → ℕ → Queue
  bytes_from i zero = []
  bytes_from i (suc n) = get_or buffer i 0 ∷ bytes_from ((i + 1) % size) n

  pub length-bytes_from : (i n : ℕ) → length (bytes_from i n) ≡ n
  length-bytes_from i zero = refl
  length-bytes_from i (suc n) = ap suc (length-bytes_from ((i + 1) % size) n)

  bytes_from_pos :
      (i n : ℕ) → 0 < n → bytes_from i n ≡ get_or buffer i 0 ∷ bytes_from ((i + 1) % size) (n - 1)
  bytes_from_pos i zero p = elim p [ ]
  bytes_from_pos i (suc n) p = ap (λ k. bytes_from i (suc k)) (omega arith)

-- The queue that a ring stands for, oldest byte first.
abbrev pub contents : Ringbuf → Queue
contents rb = bytes_from rb.buffer rb.size rb.tail rb.count

-- Under a pointer; NULL holds nothing.
abbrev pub contents_at : Option Ringbuf → Queue
contents_at (some rb) = contents rb
contents_at none = []

abbrev pub size_at : Option Ringbuf → ℕ
size_at (some rb) = rb.size
size_at none = 0

pub length-contents : (rb : Ringbuf) → length (contents rb) ≡ rb.count
length-contents rb = length-bytes_from rb.buffer rb.size rb.tail rb.count

-- Between one and `size - 1` places on is another place.
place-ne : {size i k : ℕ} → i < size → suc k < size → (i + suc k) % size ≢ i
place-ne {size} {i} {k} hi hk = elim (dec_lt (i + suc k) size) [
  | yes p ↦ omega (arith, mod-eq_of_lt p)
  | no p ↦ omega (
    arith,
    mod-eq-sub-mod {n = i + suc k} {m = size} (omega arith),
    mod-eq_of_lt {n = i + suc k - size} {m = size} (omega arith),
  )
]

-- A byte stored behind the last one is appended.
bytes_from-set :
    (buffer : List ℕ) (size x n i at : ℕ)
    → size ≤ length buffer
    → i < size
    → n < size
    → at ≡ (i + n) % size
    → bytes_from (set buffer at x) size i (suc n) ≡ bytes_from buffer size i n ++ (x ∷ [])
bytes_from-set buffer size x zero i at lent hi hn e =
    rw (e, add-zero, mod-eq_of_lt hi, get_or-set_self buffer i x 0 (omega arith))
bytes_from-set buffer size x (suc n) i at lent hi hn e =
    ap₂ ◌∷◌ (get_or-set_ne buffer x 0 (rw e (place-ne hi hn))) (
      bytes_from-set buffer size x n ((i + 1) % size) at lent (omega arith) (omega arith)
        (e ∙ next))
  where
    next : (i + suc n) % size ≡ ((i + 1) % size + n) % size
    next = rw mod-add-mod (ap (λ k. k % size) (omega arith))

-- `tt_ringbuf_write` on a valid ring answers as the queue does, and leaves the ring holding what
-- the queue then holds.
pub write_refines :
    {rb : Ringbuf} (x : ℕ)
    → IsValid rb
    → let (e, rb') = write (some rb) x in
      (status e, contents_at rb') ≡ Queue.push rb.size (contents rb) x
unfolding write Queue.push
write_refines {rb} x v =
    ground (arith, length-contents rb, bytes_from-set rb.buffer rb.size x rb.count rb.tail rb.head)

-- `tt_ringbuf_read` on a valid ring answers as the queue does: the oldest byte, or BUFFER_EMPTY with
-- `*data` untouched; and it leaves the ring holding what the queue then holds.
pub read_refines :
    {rb : Ringbuf} (old : ℕ)
    → IsValid rb
    → let (e, out, rb') = read (some rb) (some old) in
      (got e out, contents_at rb') ≡ Queue.pop old (contents rb)
unfolding read Queue.pop
read_refines {rb} old v = ground (
  arith,
  bytes_from_pos rb.buffer rb.size rb.tail rb.count,
  get_or_default rb.buffer rb.tail old 0,
  advance_lem v rb.tail,
)

size-write : (rb : Ringbuf) (x : ℕ) → size_at (write (some rb) x).1 ≡ rb.size
unfolding write
size-write rb x = ground arith

size-read : (rb : Ringbuf) (old : ℕ) → size_at (read (some rb) (some old)).2 ≡ rb.size
unfolding read
size-read rb old = ground arith

-- One call through a pointer to a valid ring: the reply, and all that the next call depends on.
pub record Refines (size : ℕ) (out : Reply × Option Ringbuf) (q : Reply × Queue) : Type 0 where
  pub same : (out.0, contents_at out.1) ≡ q
  pub valid : IsValidAt out.1
  pub fixed : size_at out.1 ≡ size

pub step-Refines :
    {rb : Ringbuf} (c : Call)
    → IsValid rb
    → Refines rb.size (step (some rb) c) (Queue.step rb.size (contents rb) c)
unfolding step Queue.step count_of is_empty is_full
step-Refines {rb} (put x) v = record {
  same = write_refines x v;
  valid = write-IsValid x v;
  fixed = size-write rb x;
}
step-Refines {rb} (get old) v = record {
  same = read_refines old v;
  valid = read-IsValid old v;
  fixed = size-read rb old;
}
step-Refines {rb} c v = record { same = rw (length-contents rb); valid = v; fixed = refl }

run_refines_at :
    (calls : List Call) (rb : Option Ringbuf)
    → IsValidAt rb
    → run rb calls ≡ Queue.run (size_at rb) (contents_at rb) calls
unfolding run Queue.run
run_refines_at calls none v = absurd v
run_refines_at [] (some rb) v = refl
run_refines_at (c ∷ calls) (some rb) v =
    let r = step-Refines c v in
    rw (run_refines_at calls (step (some rb) c).1 r.valid, r.fixed, ← r.same)

-- No sequence of calls tells a valid ring from the bounded queue of its contents: every status,
-- byte, count and flag is the queue's.
pub run_refines :
    (calls : List Call) {rb : Ringbuf}
    → IsValid rb
    → run (some rb) calls ≡ Queue.run rb.size (contents rb) calls
run_refines calls {rb} v = run_refines_at calls (some rb) v
