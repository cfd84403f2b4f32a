-- ===== src/Tests.antt =====
-- Every theorem at a concrete keyspace, on the Redis in memory.
mod Data
mod Jobs
mod Stores
mod Servers
mod Clocks
mod Workers
mod Clients
mod Crashes
mod Failovers
