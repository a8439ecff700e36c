-- ===== src/Examples.antt =====
-- The theorems at concrete values.
mod Setup
mod Auth
mod Clients
mod Access
mod Topics
mod Processes
mod Runs
mod Texts
mod Registry
mod Bridges
mod Nodes
mod Signing
