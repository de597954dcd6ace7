-- ===== src/Container.antt =====
-- The fixed-capacity containers of emb/container.
pub mod Slots
pub mod View
pub mod Window
pub mod Loops
pub mod Deque
pub mod CircularBuffer
pub mod Fifo
pub mod InplaceQueue
pub mod Bounded
pub mod InplaceVector
pub mod InplaceStack
mod Tests
