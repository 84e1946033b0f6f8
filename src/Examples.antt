-- ===== src/Examples.antt =====
-- Sample programs and types, on which the theorems are applied.
pub mod Types
pub mod Bodies
pub mod Text
pub mod Words
pub mod Targets
pub mod Prefixes
pub mod Opcodes
pub mod Layouts
pub mod Units
pub mod Documents
pub mod Outputs
pub mod Policies
