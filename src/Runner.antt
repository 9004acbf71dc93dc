-- ===== src/Runner.antt =====
-- src/satyrn_engine/runner.py
pub mod Carried
pub mod Compact
pub mod Output
pub mod Receipt
pub mod Run
