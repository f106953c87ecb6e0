-- ===== src/Examples.antt =====
-- Concrete runs of the components' theorems.
mod Authz
mod Snapshot
mod Signing
mod Edge
mod Health
mod Breakers
mod Patches
mod Plugins
