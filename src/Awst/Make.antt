-- ===== src/Awst/Make.antt =====
-- The factories of src/awst/Node.h that other parts of the model use. A type argument is a pointer
-- that may be null. `make_expr` is what each of them does: a node of a class, at a place, of a type.
pub mod Constants
pub mod Operations
pub mod Bytes
pub mod Casts
pub mod Target
