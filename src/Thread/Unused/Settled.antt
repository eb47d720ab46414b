-- ===== src/Thread/Unused/Settled.antt =====
-- `tt_thread_create` of src/tt_thread.c, lines 207 to 286, over any platform whose branch either frees the
-- new thread or gives it a handle that can be released.

use tinytools.Prelude.{
  ℕ, ◌<◌, ◌≡◌, ◌≢◌, ◌⊎◌, inl, inr, refl, ap, ◌∙◌, Bool, none, some, Option, ◌==◌, ◌||◌, not, arith,
  ℕ_discrete, Bool-cases, dec_lt, length,
}
use tinytools.Prelude.Threads.{update}
use tinytools.Types.{TtError, success, null_pointer, memory, not_found}
use tinytools.Mutex.{MutexApi}
use tinytools.ThreadTable.{max_threads, register_loop}
use tinytools.ThreadTable.Loops.{used, used-le-length, register-IsTable}
use tinytools.ThreadTable.Bag.{register-full, register-Registered}
use tinytools.ThreadTable.Calls.{IsReady, register-Ends, nonzero, is_zero}
use tinytools.Thread.Data.{Thread, Attr}
use tinytools.Thread.Unused.{
  Outcome, starts, frees, Port, State, Creates, with_world, new_thread, enroll, proceed, create,
}

-- The two ends of the platform's branch.
pub record IsFreed (port : Port) (r : Outcome × port.World) : Type 0 where
  pub error : TtError
  pub world : port.World
  pub result : r ≡ (frees error, world)
  pub bad : error ≢ success

pub record IsStarted (port : Port) (r : Outcome × port.World) : Type 0 where
  pub handle : ℕ
  pub world : port.World
  pub result : r ≡ (starts handle, world)
  pub released : port.World
  pub releases : port.release handle world ≡ some released

pub record Settles (port : Port) : Type 0 where
  pub start_ends :
      (a : ℕ) (t : Thread) (w : port.World)
      → IsFreed port (port.start a t w) ⊎ IsStarted port (port.start a t w)

module _ (api : MutexApi) (port : Port) (law : Settles port) where
  -- A creation that failed, with the threads and the table as before.
  pub record Undone (s : State api port) (r : Creates api port) : Type 0 where
    pub status : TtError
    pub last : State api port
    pub returned : r ≡ some ((status, none), last)
    pub error : status ≢ success
    pub ready : IsReady api last.globals
    pub same_heap : (b : ℕ) → last.heap b ≡ s.heap b
    pub same_table : last.globals.table ≡ s.globals.table

  -- A creation that succeeded, with a new thread `t` at `a` that is in the table.
  pub record Done (a : ℕ) (t : Thread) (s : State api port) (r : Creates api port) : Type 0 where
    pub handle : ℕ
    pub last : State api port
    pub returned : r ≡ some ((success, some a), last)
    pub ready : IsReady api last.globals
    pub heap : (b : ℕ) → last.heap b ≡ update s.heap a (some (record t { handle = handle })) b
    pub room : used s.globals.table < max_threads
    pub table : last.globals.table ≡ (register_loop a s.globals.table).1

  module _ (a : ℕ) (t : Thread) (s : State api port) (w : port.World) (n : a ≢ 0)
      (fresh : s.heap a ≡ none) (ready : IsReady api s.globals) where
    enroll_cases :
        (h : ℕ) (w2 : port.World)
        → port.release h w ≡ some w2
        → (let t' : Thread = record t { handle = h } in
            let r = enroll api port a t' (record {
              heap = update (update s.heap a (some t)) a (some t');
              globals = s.globals;
              world = w;
            }) in
            Undone s r ⊎ Done a t s r)
    unfolding enroll
    enroll_cases h w2 releases =
        let e = register-Ends api a s.globals n ready.free in
        elim (dec_lt (used s.globals.table) max_threads) [
          | yes room ↦
              let room' : used s.globals.table < length s.globals.table =
                omega (arith, ready.table.size) in
              let done = (register-Registered a a s.globals.table room').result in
              rw (e.returned, done)
                (inr (record {
                  handle = h;
                  last = _;
                  returned = refl;
                  ready = record {
                    table = rw e.left (register-IsTable a s.globals.table n ready.table);
                    free = e.free;
                  };
                  heap = λ b. ground arith;
                  room = room;
                  table = e.left;
                }))
          | no full ↦
              let all : used s.globals.table ≡ length s.globals.table =
                omega (arith, used-le-length s.globals.table, ready.table.size) in
              let loop = register-full a s.globals.table all in
              let same : e.last.table ≡ s.globals.table = e.left ∙ ap (λ r. r.1) loop in
              rw (e.returned, loop, releases)
                (inl (record {
                  status = not_found;
                  last = _;
                  returned = refl;
                  error = λ e. absurd (ground arith);
                  ready = record { table = rw same ready.table; free = e.free };
                  same_heap = λ b. ground (arith, fresh);
                  same_table = same;
                }))
        ]

  unchanged :
      (s : State api port) (e : TtError) (w : port.World)
      → IsReady api s.globals
      → e ≢ success
      → Undone s (some ((e, none), with_world api port s w))
  unchanged s e w ready bad = record {
    status = e;
    last = with_world api port s w;
    returned = refl;
    error = bad;
    ready = ready;
    same_heap = λ b. refl;
    same_table = refl;
  }

  -- The platform's branch has freed the thread.
  given_up :
      (a : ℕ) (t : Thread) (s : State api port) (w : port.World) (e : TtError)
      → s.heap a ≡ none
      → IsReady api s.globals
      → e ≢ success
      → Undone s (
          some ((e, none), record s { heap = update (update s.heap a (some t)) a none; world = w }))
  given_up a t s w e fresh ready bad = record {
    status = e;
    last = record s { heap = update (update s.heap a (some t)) a none; world = w };
    returned = refl;
    error = bad;
    ready = ready;
    same_heap = λ b. ground (arith, fresh);
    same_table = refl;
  }

  -- `tt_thread_create` on any platform whose branch frees the thread or gives it a handle that can be
  -- released, over a mutex that nobody holds, a well-formed table and a heap that hands out a cell that
  -- is not in use: it returns, whatever it is given. Either it fails, and the threads and the table are
  -- as before; or it succeeds with a new thread in the state CREATED, and the table had room for it.
  pub create_settles :
      (is_out : Bool) (attr : Option Attr) (func arg : ℕ) (s : State api port)
      → s.heap (port.malloc s.world).0 ≡ none
      → IsReady api s.globals
      → Undone s (create api port is_out attr func arg s)
        ⊎ Done
            (port.malloc s.world).0
            (new_thread api port (port.garbage (port.malloc s.world).1) attr func arg)
            s
            (create api port is_out attr func arg s)
  unfolding create proceed
  create_settles is_out attr func arg s fresh ready =
      let (a, w) = port.malloc s.world in
      let t = new_thread api port (port.garbage w) attr func arg in
      elim (Bool-cases (not is_out || (func == 0))) [
        | inl null ↦
            rw null (inl (unchanged s null_pointer s.world ready (λ e. absurd (ground arith))))
        | inr called ↦ elim (ℕ_discrete a 0) [
          | yes no_memory ↦
              rw (called, is_zero a no_memory)
                (inl (unchanged s memory w ready (λ e. absurd (ground arith))))
          | no n ↦ elim (law.start_ends a t w) [
            | inl x ↦
                rw (called, nonzero a n, x.result)
                  (inl (given_up a t s x.world x.error fresh ready x.bad))
            | inr x ↦
                rw (called, nonzero a n, x.result)
                  (enroll_cases a t s x.world n fresh ready x.handle x.released x.releases)
          ]
        ]
      ]
