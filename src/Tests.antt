-- ===== src/Tests.antt =====
-- Runs of the model at concrete inputs.
pub mod Jobs
pub mod Artifacts
pub mod Printers
pub mod Printing
pub mod Replies
pub mod Reaping
pub mod Listing
pub mod Niimbot
pub mod Execution
