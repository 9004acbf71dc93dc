-- ===== src/Derive.antt =====
-- src/satyrn_engine/derive.py
pub mod Render
