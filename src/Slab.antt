-- ===== src/Slab.antt =====
-- The slab allocator: slaballoc/src/util.rs (Align), slaballoc/src/allocator.rs (Allocator, and
-- Ownership for what its operations keep), the adapter of slaballoc/src/lib.rs
-- (Lock) and the callers behind it (Client).
pub mod Align
pub mod Allocator
pub mod Ownership
pub mod Client
pub mod Lock
mod Tests
mod Witnesses
