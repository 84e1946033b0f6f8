-- ===== src/SolTypes/Coercion.antt =====
-- The numeric part of src/builder/sol-types/TypeCoercion.cpp and
-- src/builder/sol-types/ConversionPlan.cpp.
pub mod Implicit
pub mod Extend
