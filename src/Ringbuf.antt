-- ===== src/Ringbuf.antt =====
-- src/tt_ringbuf.c and include/tt_ringbuf.h: a ring of bytes in memory that the caller lends.
-- A pointer argument is an `Option`, with `none` for NULL. A function that writes through a pointer
-- returns what the pointer then points to. Bytes are only moved, so a byte is any number.
pub mod Queue
pub mod Invariant
pub mod Refine
pub mod Fifo
pub mod View
mod Examples
use tinytools.Prelude.{
  ℕ, ◌+◌, ◌-◌, ◌%◌, ◌^◌, Bool, true, Option, none, some, List, [], ◌∷◌, get_or, set, ◌==◌,
  if◌then◌else◌,
}
use tinytools.Types.{TtError, success, null_pointer, invalid_param, buffer_full, buffer_empty}
use Queue.{Call, put, get, ask_count, ask_empty, ask_full, Reply, status, got, number, answer}

-- `tt_ringbuf_t`, with the memory behind `buffer`
pub record Ringbuf : Type 0 where
  pub buffer : List ℕ
  pub size : ℕ
  pub head : ℕ
  pub tail : ℕ
  pub count : ℕ

-- A sum in `size_t`.
abbrev pub size_t : ℕ → ℕ
size_t n = n % 2 ^ 64

-- `rb->head = (rb->head + 1) % rb->size`, and the same at `tail`
abbrev pub advance : ℕ → ℕ → ℕ
advance i size = size_t (i + 1) % size

pub init : Option Ringbuf → Option (List ℕ) → ℕ → TtError × Option Ringbuf
init (some rb) (some buffer) size =
    if size == 0
    then (invalid_param, some rb)
    else (success, some (record { buffer = buffer; size = size; head = 0; tail = 0; count = 0 }))
init rb buffer size = (invalid_param, rb)

pub count_of : Option Ringbuf → ℕ
count_of (some rb) = rb.count
count_of none = 0

pub is_empty : Option Ringbuf → Bool
is_empty (some rb) = rb.count == 0
is_empty none = true

pub is_full : Option Ringbuf → Bool
is_full (some rb) = rb.count == rb.size
is_full none = true

pub write : Option Ringbuf → ℕ → TtError × Option Ringbuf
unfolding is_full
write none byte = (null_pointer, none)
write (some rb) byte = if is_full (some rb) then (buffer_full, some rb) else (
  success,
  some (record rb {
    buffer = set rb.buffer rb.head byte;
    head = advance rb.head rb.size;
    count = size_t (rb.count + 1);
  }),
)

-- The second part of the result is `*data` afterwards. `count--` runs only at `count ≢ 0`.
pub read : Option Ringbuf → Option ℕ → TtError × Option ℕ × Option Ringbuf
unfolding is_empty
read (some rb) (some old) = if is_empty (some rb) then (buffer_empty, some old, some rb) else (
  success,
  some (get_or rb.buffer rb.tail old),
  some (record rb { tail = advance rb.tail rb.size; count = rb.count - 1 }),
)
read rb data_ptr = (null_pointer, data_ptr, rb)

-- One call of a client that passes the same `rb` to each, and a valid `data`.
pub step : Option Ringbuf → Call → Reply × Option Ringbuf
step rb (put byte) = let (e, rb') = write rb byte in (status e, rb')
step rb (get old) = let (e, out, rb') = read rb (some old) in (got e out, rb')
step rb ask_count = (number (count_of rb), rb)
step rb ask_empty = (answer (is_empty rb), rb)
step rb ask_full = (answer (is_full rb), rb)

pub run : Option Ringbuf → List Call → List Reply
run rb [] = []
run rb (c ∷ calls) = let (reply, rb') = step rb c in reply ∷ run rb' calls
