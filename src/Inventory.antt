-- ===== src/Inventory.antt =====
-- apps/device-inventory: the devices of the network.
pub mod Store
mod DhcpFingerprint
mod Examples
