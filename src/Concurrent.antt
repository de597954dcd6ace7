-- ===== src/Concurrent.antt =====
-- Sharing between an interrupt and a thread, or between threads: emb/concurrent.
pub mod SpscQueue
pub mod DoubleBuffer
pub mod Seqlock
pub mod TripleBuffer
mod Tests
