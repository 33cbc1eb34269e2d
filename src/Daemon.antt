-- ===== src/Daemon.antt =====
-- The daemon's settings: the requests of daemon/rpc_set_*.go and what they keep true.
pub mod State
pub mod Subnets
pub mod Switches
pub mod Tunnel
pub mod Nameservers
pub mod Allowlisting
pub mod Users
pub mod Meshnet
pub mod Autoconnect
pub mod Requests
pub mod Consistency
