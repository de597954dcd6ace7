-- ===== src/Filter.antt =====
-- emb/filter: filters over a window of the latest inputs, which a circular buffer keeps. A result
-- `none` is a fault of that buffer.
pub mod Latest
pub mod MovingAverage
pub mod Median
pub mod Order
mod Tests
