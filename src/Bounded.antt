-- ===== src/Bounded.antt =====
-- internal/bounded: the ring buffer and the byte-budgeted queue on top of it.
pub mod Fifo
pub mod Ring
pub mod Queue
mod Tests
