-- ===== src/Memory.antt =====
-- infrastructure/memory: the in-process stores. The mutex makes each operation atomic, so each is
-- one function on the store.
pub mod Stores
pub mod Laws
