-- ===== src/SolTypes.antt =====
-- Solidity types and the conversions between their AWST forms (src/builder/sol-types).
pub mod IntType
pub mod Coercion
