-- ===== src/Printing.antt =====
-- catlabel/printing: what stands between a print job and its device.
pub mod Spool
pub mod Execution
pub mod Admission
