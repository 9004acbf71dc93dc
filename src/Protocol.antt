-- ===== src/Protocol.antt =====
-- src/satyrn_engine/protocol.py
pub mod Request
pub mod Response
pub mod Handle
