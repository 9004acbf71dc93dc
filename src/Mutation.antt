-- ===== src/Mutation.antt =====
-- src/satyrn_engine/mutation.py: exact replacements in one file, bounded by a contract.
pub mod Receipt
pub mod Path
pub mod Apply
pub mod Region
pub mod Io
pub mod Target
pub mod Replace
