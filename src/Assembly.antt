-- ===== src/Assembly.antt =====
-- src/builder/assembly: the lowering of Yul. Modelled are the opcodes that compute on words, as the
-- table of AssemblyBuilder::buildFunctionCall (CoreTranslation.cpp) dispatches them.
pub mod Words
pub mod Arguments
pub mod Arithmetic
pub mod Signed
pub mod Shift
pub mod Opcodes
pub mod Exp
pub mod Operand
pub mod Evm
