-- ===== src/Policy.antt =====
-- apps/killswitch-controller/internal/policy.
pub mod Allowlist
pub mod Rules
pub mod Env
mod Examples
