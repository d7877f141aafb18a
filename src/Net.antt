-- ===== src/Net.antt =====
-- What the program uses of Go's packages net and net/netip.
pub mod Mac
pub mod Addr
pub mod Ip
pub mod Domain
pub mod Samples
