-- ===== src/Tests.antt =====
-- Runs at concrete inputs.
mod Pages
mod Tables
mod Catalogs
mod Dbs
mod Files
mod Heaps
mod Memory
mod Evicting
mod Pool
mod Queries
mod Sorts
