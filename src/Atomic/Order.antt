-- ===== src/Atomic/Order.antt =====
-- The memory orders of include/tt_atomic.h. The functions of src/tt_atomic.c hand the order on to the
-- compiler's built-ins as an argument that is known at run time only.

-- `tt_memory_order_t`
pub data MemoryOrder : Type 0 where
  relaxed acquire release acq_rel seq_cst : MemoryOrder
