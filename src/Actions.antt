-- ===== src/Actions.antt =====
-- apps/killswitch-controller/internal/actions: the store of enforcement actions.
pub mod Store
