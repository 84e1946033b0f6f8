-- ===== src/Awst/Operators.antt =====
-- The enumerations and the tagged unions at the top of src/awst/Node.h.
use puya_sol.Prelude.{String, ℤ}

pub data UInt64BinaryOperator : Type 0 where
  add sub mult floor_div mod_op pow l_shift r_shift bit_or bit_xor bit_and : UInt64BinaryOperator

pub data BigUIntBinaryOperator : Type 0 where
  add sub mult floor_div mod_op bit_or bit_xor bit_and : BigUIntBinaryOperator

pub data BytesBinaryOperator : Type 0 where
  add bit_or bit_xor bit_and : BytesBinaryOperator

pub data BytesUnaryOperator : Type 0 where
  bit_invert : BytesUnaryOperator

pub data NumericComparison : Type 0 where
  eq ne lt lte gt gte : NumericComparison

pub data EqualityComparison : Type 0 where
  eq ne : EqualityComparison

pub data BinaryBooleanOperator : Type 0 where
  and or : BinaryBooleanOperator

pub data BytesEncoding : Type 0 where
  unknown base16 base32 base64 utf8 : BytesEncoding

-- `std::variant<std::string, int>`.
pub data Immediate : Type 0 where
  text : String → Immediate
  number : ℤ → Immediate

pub data SubroutineTarget : Type 0 where
  subroutine_id : String → SubroutineTarget
  instance_method_target : String → SubroutineTarget
  instance_super_method_target : String → SubroutineTarget
  contract_method_target : String → String → SubroutineTarget
