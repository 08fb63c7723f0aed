-- ===== src/Tests.antt =====
-- The theorems at concrete inputs: a repository of two indexed files, and a quiet or a failing world.
mod Fixtures
mod Pushes
mod Indexing
mod Deliveries
mod Sources
mod Stored
mod Ingested
mod Connected
mod Retrieved
mod Subscribed
mod Configured
mod Whole
mod Embedded
mod Declared
