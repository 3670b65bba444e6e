-- ===== src/Tests.antt =====
-- Runs of the definitions at concrete inputs.
mod Workers
mod Waits
mod Schedulers
mod Events
mod Examples
mod Gates
mod Memories
mod Containers
mod Conditions
mod Systems
mod Lists
mod Fibers
