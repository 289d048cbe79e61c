-- ===== src/Tests.antt =====
-- The unit tests of the source as evaluations (Source), and each conditional theorem at a concrete input.
mod Counters
mod Tables
mod Worker
mod Page
mod Stores
mod Locking
mod Shown
mod Source
