-- ===== src/Durability.antt =====
-- packages/without_durability: the stores of durable workflows.
pub mod Values
pub mod InboxKey
pub mod Checkpointer
pub mod Scheduler
pub mod SplitDurable
pub mod Stepwise
