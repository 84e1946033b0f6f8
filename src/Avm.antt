-- ===== src/Avm.antt =====
-- The machine on which the emitted expressions run. The AVM and the puya backend are no part of the
-- repository: `Machine` holds what the theorems take of their documentation, and `Reference` an
-- evaluator that meets it.
pub mod Digits
pub mod Machine
pub mod Decimal
pub mod Reference
