-- ===== src/Logistics.antt =====
-- The carrier layer (packages/core/src/logistics): which carrier events are stale (status.ts), which
-- quote gets the parcel (selection.ts) and what weight is billed (weight.ts).
pub mod Status
pub mod Selection
pub mod Weight
pub mod Regression
pub mod Ranking
pub mod Choice
pub mod Preference
pub mod Winner
mod Tests
