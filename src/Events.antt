-- ===== src/Events.antt =====
-- libs/events: the schemas that the services share.
pub mod Action
pub mod Detection
pub mod Signature
pub mod Examples
