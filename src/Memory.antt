-- ===== src/Memory.antt =====
-- memory/: the byte stack and the block allocator on top of it.
pub mod ByteStack
pub mod Heap
