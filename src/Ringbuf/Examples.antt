-- ===== src/Ringbuf/Examples.antt =====
-- Runs of src/tt_ringbuf.c, after tests/test_ringbuf.c, and the theorems at concrete rings.
use tinytools.Prelude.{ℕ, ◌≡◌, refl, true, some, none, List, [], ◌∷◌, arith}
use tinytools.Types.{success, invalid_param, buffer_full, buffer_empty}
use tinytools.Ringbuf.{Ringbuf, init, write, read, count_of, is_empty, is_full, step, run}
use tinytools.Ringbuf.Queue
use tinytools.Ringbuf.Queue.{
  Call, put, get, ask_count, ask_full, Reply, status, got, number, answer,
}
use tinytools.Ringbuf.Invariant.{IsValid}
use tinytools.Ringbuf.View.{AreQueues, made, views-AreQueues}
use tinytools.Ringbuf.Refine.{run_refines}

abbrev memory : List ℕ
memory = 0 ∷ 0 ∷ 0 ∷ []

abbrev fresh : Ringbuf
fresh = record { buffer = memory; size = 3; head = 0; tail = 0; count = 0 }

-- Holds 8, then 9, round the end of the memory.
abbrev wrapped : Ringbuf
wrapped = record { buffer = 9 ∷ 7 ∷ 8 ∷ []; size = 3; head = 1; tail = 2; count = 2 }

wrapped-IsValid : IsValid wrapped
wrapped-IsValid = omega arith

abbrev calls : List Call
calls = put 1 ∷ put 2 ∷ ask_full ∷ get 0 ∷ get 0 ∷ ask_count ∷ get 0 ∷ get 5 ∷ []

init_refused :
    (init (some wrapped) (some memory) 0 ≡ (invalid_param, some wrapped))
    × (init (some wrapped) none 3 ≡ (invalid_param, some wrapped))
    × (init (some wrapped) (some memory) 3 ≡ (success, some fresh))
unfolding init
init_refused = (refl, refl, refl)

run-wrapped :
    run (some wrapped) calls
    ≡ status success
      ∷ status buffer_full
      ∷ answer true
      ∷ got success (some 8)
      ∷ got success (some 9)
      ∷ number 1
      ∷ got success (some 1)
      ∷ got buffer_empty (some 5)
      ∷ []
unfolding run step write read count_of is_empty is_full
run-wrapped = refl

run_refines_example : run (some wrapped) calls ≡ Queue.run 3 (8 ∷ 9 ∷ []) calls
run_refines_example = run_refines calls wrapped-IsValid

views-AreQueues_example :
    AreQueues 3 (made 3 (omega arith) (omega arith) wrapped memory (omega arith))
views-AreQueues_example = views-AreQueues 3 (omega arith) (omega arith) wrapped memory (omega arith)
