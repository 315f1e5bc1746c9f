-- ===== src/Identity.antt =====
-- Who may call: the sliding window that limits how often (packages/core/src/identity/rate-limit.ts) and
-- the permissions of a member (packages/core/src/identity/permissions.ts).
pub mod RateLimit
pub mod Window
pub mod Grants
pub mod Permissions
pub mod Verdict
mod Tests
