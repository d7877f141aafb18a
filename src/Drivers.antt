-- ===== src/Drivers.antt =====
-- apps/killswitch-controller/internal/drivers/driver.go: what applies and reverts an enforcement on
-- the network, of which the state is a type W.
pub mod Guard
pub mod Sinkhole
pub mod SwitchPort
pub mod ArpIsolate
pub mod Examples
use net_soldier.Prelude.{Option, Text}
use net_soldier.Events.Action.{EnforcementAction}

-- Driver: a call returns the network that it leaves and its error, if any.
pub record Driver (W : Type 0) : Type 0 where
  pub apply : EnforcementAction → W → W × Option Text
  pub revert : EnforcementAction → W → W × Option Text
  pub name : Text
