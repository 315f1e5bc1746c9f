-- ===== src/Inventory.antt =====
-- The stock ledger and the checkout holds (packages/core/src/inventory/server.ts, with its tables in
-- packages/db/src/schema/inventory.ts). Each entry point is one transaction over the tables of one
-- tenant, run to its end at a time `now`, in milliseconds, that stands for Postgres' now(): what
-- throws writes nothing.
pub mod Ledger
pub mod Adjustment
pub mod Holds
pub mod Sales
pub mod Sums
pub mod Invariant
pub mod Fit
pub mod Settlement
pub mod Placement
pub mod History
pub mod Recall
pub mod Replay
pub mod Selling
pub mod Guarantee
mod Tests
