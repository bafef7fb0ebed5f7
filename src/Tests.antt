-- ===== src/Tests.antt =====
-- The theorems at concrete routes and worlds.
pub mod Data
mod Admission
mod Routing
mod Passes
mod Delivery
mod Rendered
mod Dispatched
mod Stream
mod Served
mod Watching
mod Settled
mod Edge
mod Workload
