-- ===== src/Kernel.antt =====
-- src/kernel.rs: the parts of the delivery and step engine, one module to each.
pub mod Snapshot
pub mod Outbox
pub mod Decide
pub mod Step
pub mod Delivery
pub mod Lifetime
