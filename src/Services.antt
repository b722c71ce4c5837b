-- ===== src/Services.antt =====
-- catlabel/services: stored artifacts, print plans and print jobs.
pub mod Json
pub mod Text
pub mod Platform
pub mod Artifacts
pub mod Jobs
