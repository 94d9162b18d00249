-- ===== src/Tests.antt =====
-- The theorems at concrete inputs, where their hypotheses hold.
mod Data
mod Rooms
mod Routers
mod Servers
mod Sessions
mod Loads
