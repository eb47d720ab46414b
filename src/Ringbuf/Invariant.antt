-- ===== src/Ringbuf/Invariant.antt =====
-- The representation invariant of `tt_ringbuf_t`.
use native.Mathlib.Nat.{mod-add-mod}
use tinytools.Prelude.{
  ℕ, ◌+◌, ◌-◌, ◌%◌, ◌^◌, ◌≤◌, ◌<◌, ◌≡◌, ◌∙◌, ap, sym, Option, none, some, List, length, length-set,
  arith,
}
use tinytools.Types.{success}
use tinytools.Ringbuf.{Ringbuf, advance, init, write, read}

-- The caller lends at least `size` bytes; the write index is `count` places after the read index.
pub record IsValid (rb : Ringbuf) : Type 0 where
  pub word : rb.size < 2 ^ 64
  pub lent : rb.size ≤ length rb.buffer
  pub tail_in : rb.tail < rb.size
  pub count_in : rb.count ≤ rb.size
  pub head_at : rb.head ≡ (rb.tail + rb.count) % rb.size

-- What a pointer to a ring points to.
abbrev pub IsValidAt : Option Ringbuf → Type 0
IsValidAt none = ⊥
IsValidAt (some rb) = IsValid rb

pub head_in : {rb : Ringbuf} → IsValid rb → rb.head < rb.size
head_in v = omega arith

-- No index wraps in `size_t`.
pub advance_lem :
    {rb : Ringbuf} → IsValid rb → (i : ℕ) → i < rb.size → advance i rb.size ≡ (i + 1) % rb.size
advance_lem {rb} v i h = ap (λ k. k % rb.size) (omega arith)

advance-mod : (i j n : ℕ) → (i + 1 + j) % n ≡ ((i + 1) % n + j) % n
advance-mod i j n = rw mod-add-mod

-- A successful `tt_ringbuf_init` gives a valid empty ring, whatever the record held.
pub init-IsValid :
    (rb : Ringbuf) (buffer : List ℕ) (size : ℕ) {rb' : Ringbuf}
    → size < 2 ^ 64
    → size ≤ length buffer
    → init (some rb) (some buffer) size ≡ (success, some rb')
    → IsValid rb' × (rb'.count ≡ 0) × (rb'.size ≡ size)
unfolding init
init-IsValid rb buffer size w l e = grind arith

-- The code moves the indices on from `head` and `tail` apart: both stay `count` places apart.
write-head :
    {rb : Ringbuf} → IsValid rb → advance rb.head rb.size ≡ (rb.tail + (rb.count + 1)) % rb.size
write-head {rb} v =
    advance_lem v rb.head (head_in v)
    ∙ (ap (λ k. (k + 1) % rb.size) v.head_at
        ∙ (mod-add-mod _ _ _ ∙ ap (λ k. k % rb.size) (omega arith)))

read-head :
    {rb : Ringbuf}
    → IsValid rb
    → 0 < rb.count
    → rb.head ≡ (advance rb.tail rb.size + (rb.count - 1)) % rb.size
read-head {rb} v h =
    v.head_at
    ∙ (ap (λ k. k % rb.size) (omega arith)
        ∙ (advance-mod rb.tail (rb.count - 1) rb.size
            ∙ ap (λ k. (k + (rb.count - 1)) % rb.size) (sym (advance_lem v rb.tail v.tail_in))))

-- `tt_ringbuf_write` keeps a valid ring valid, full or not.
pub write-IsValid : {rb : Ringbuf} (x : ℕ) → IsValid rb → IsValidAt (write (some rb) x).1
unfolding write
write-IsValid {rb} x v = ground (arith, write-head v, length-set rb.buffer rb.head x)

-- `tt_ringbuf_read` keeps a valid ring valid, empty or not.
pub read-IsValid : {rb : Ringbuf} (old : ℕ) → IsValid rb → IsValidAt (read (some rb) (some old)).2
unfolding read
read-IsValid {rb} old v = ground (arith, read-head v)
