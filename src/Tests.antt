-- ===== src/Tests.antt =====
-- The theorems at concrete inputs, and runs of the definitions.
mod Selections
mod Settings
mod PortLists
mod Routing
mod Networking
mod Meshes
mod Accounts
