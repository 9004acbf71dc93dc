-- ===== src/Delivery.antt =====
-- src/satyrn_engine/delivery.py: one isolated, cleaned-up and published candidate delivery.
pub mod Codes
pub mod Receipt
pub mod Host
pub mod Git
pub mod Exec
pub mod Calls
pub mod Preflight
pub mod Stream
pub mod Cleanup
pub mod Run
pub mod Commit
pub mod Validate
pub mod Isolation
pub mod Attempt
pub mod Spec
pub mod Shape
