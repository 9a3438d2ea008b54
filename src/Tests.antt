-- ===== src/Tests.antt =====
-- Tests and witnesses.
mod Topologies
mod Counters
mod Limits
mod Stores
mod Wires
mod Flushes
mod Https
mod Syncs
mod Runs
mod Routed
mod Xboards
mod Panels
mod Accounts
mod Logins
mod Configs
