-- ===== src/Queues.antt =====
-- The bounded run queues of the schedulers, src/fev_bounded_spmc_queue.h and
-- src/fev_bounded_mpmc_queue.h: arrays of a power-of-two size under 32-bit positions that wrap.
pub mod Window
pub mod Spmc
pub mod Mpmc
