-- ===== src/SampleApp.antt =====
-- demo/sample-app: the demonstration workload, a single HTTP service with injected faults.
pub mod Floats
pub mod Config
pub mod Fault
pub mod Metrics
pub mod Handlers
pub mod Server
pub mod Main
