-- ===== src/Awst.antt =====
-- The AWST tree that the compiler builds (src/awst).
pub mod WType
pub mod Location
pub mod Operators
pub mod Expr
pub mod Stmt
pub mod Visit
pub mod Termination
pub mod Returns
pub mod Session
pub mod Make
pub mod Program
pub mod Roots
