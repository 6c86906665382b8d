-- ===== src/Timers/Heap.antt =====
-- The proofs about the heap functions: the order of the keys, the links between slots and timers,
-- and the two sifts.
pub mod Order
pub mod Links
pub mod Up
pub mod Down
