-- ===== src/Assembly/Opcodes.antt =====
-- The rows of the table `kArgsBuiltins` (src/builder/assembly/CoreTranslation.cpp) whose handlers are
-- modelled: the opcodes that compute on words.
use puya_sol.Prelude.{
  ℕ, ◌≡◌, ◌≢◌, refl, false, none, List, [], ◌∷◌, ◌++◌, String, string_eq, length, eqb, arith,
}
use puya_sol.Awst.Location.{SourceLocation}
use puya_sol.Awst.Expr.{Expression, null}
use puya_sol.Awst.Session.{Session, Build}
use puya_sol.Assembly.Words.{Wide}
use puya_sol.Assembly.Arguments.{check_arity, arity_message, make_yul_compare, make_yul_bitwise}
use puya_sol.Assembly.Arithmetic.{
  handle_mulmod, handle_addmod, handle_add, handle_mul, handle_mod, handle_sub, handle_iszero,
  handle_eq, handle_lt, handle_gt, handle_and, handle_or, handle_not, handle_xor, handle_div,
}
use puya_sol.Assembly.Shift.{handle_shl, handle_shr, handle_byte, handle_signextend, handle_sar}
use puya_sol.Assembly.Signed.{handle_sdiv, handle_smod, handle_slt, handle_sgt}

pub data Opcode : Type 0 where
  mulmod addmod add mul mod_op sub iszero eq lt gt and or not xor div : Opcode
  shl shr byte signextend sdiv smod slt sgt sar : Opcode

unfoldable pub opcode_name : Opcode → String
opcode_name mulmod = "mulmod"
opcode_name addmod = "addmod"
opcode_name add = "add"
opcode_name mul = "mul"
opcode_name mod_op = "mod"
opcode_name sub = "sub"
opcode_name iszero = "iszero"
opcode_name eq = "eq"
opcode_name lt = "lt"
opcode_name gt = "gt"
opcode_name and = "and"
opcode_name or = "or"
opcode_name not = "not"
opcode_name xor = "xor"
opcode_name div = "div"
opcode_name shl = "shl"
opcode_name shr = "shr"
opcode_name byte = "byte"
opcode_name signextend = "signextend"
opcode_name sdiv = "sdiv"
opcode_name smod = "smod"
opcode_name slt = "slt"
opcode_name sgt = "sgt"
opcode_name sar = "sar"

-- How many arguments the EVM gives an opcode.
unfoldable pub operands : Opcode → ℕ
operands mulmod = 3
operands addmod = 3
operands iszero = 1
operands not = 1
operands _ = 2

module _ (stoull : String → ℕ) (wide : Wide) (args : List Expression) (loc : SourceLocation) where
  unfoldable pub handle : Opcode → Build Expression
  handle mulmod = handle_mulmod wide args loc
  handle addmod = handle_addmod wide args loc
  handle add = handle_add args loc
  handle mul = handle_mul args loc
  handle mod_op = handle_mod wide args loc
  handle sub = handle_sub args loc
  handle iszero = handle_iszero args loc
  handle eq = handle_eq args loc
  handle lt = handle_lt args loc
  handle gt = handle_gt args loc
  handle and = handle_and args loc
  handle or = handle_or args loc
  handle not = handle_not args loc
  handle xor = handle_xor args loc
  handle div = handle_div wide args loc
  handle shl = handle_shl args loc
  handle shr = handle_shr args loc
  handle byte = handle_byte args loc
  handle signextend = handle_signextend stoull args loc
  handle sdiv = handle_sdiv args loc
  handle smod = handle_smod args loc
  handle slt = handle_slt args loc
  handle sgt = handle_sgt args loc
  handle sar = handle_sar args loc

  -- The session after the error of a wrong number of arguments.
  abbrev pub with_arity_error : Opcode → Session → Session
  unfolding opcode_name operands
  with_arity_error op s = record s {
    errors = s.errors ++ (arity_message (opcode_name op) (operands op) none ∷ []);
  }

  unequal : (n k : ℕ) → n ≢ k → eqb n k ≡ false
  unequal n k h = ground arith

  -- With a number of arguments other than the arity of the EVM, each of the opcodes gives a null
  -- pointer and changes nothing but logging the one error that names the opcode and its arity.
  pub handle-with_arity_error :
      (op : Opcode) (s : Session)
      → length args ≢ operands op
      → handle op s ≡ (null, with_arity_error op s)
  unfolding handle operands opcode_name check_arity make_yul_compare make_yul_bitwise handle_mulmod
      handle_addmod handle_add handle_mul handle_mod handle_sub handle_iszero handle_eq handle_lt
      handle_gt handle_and handle_or handle_not handle_xor handle_div handle_shl handle_shr
      handle_byte handle_signextend handle_sdiv handle_smod handle_slt handle_sgt handle_sar
  handle-with_arity_error mulmod s h = rw (unequal (length args) 3 h) refl
  handle-with_arity_error addmod s h = rw (unequal (length args) 3 h) refl
  handle-with_arity_error add s h = rw (unequal (length args) 2 h) refl
  handle-with_arity_error mul s h = rw (unequal (length args) 2 h) refl
  handle-with_arity_error mod_op s h = rw (unequal (length args) 2 h) refl
  handle-with_arity_error sub s h = rw (unequal (length args) 2 h) refl
  handle-with_arity_error iszero s h = rw (unequal (length args) 1 h) refl
  handle-with_arity_error eq s h = rw (unequal (length args) 2 h) refl
  handle-with_arity_error lt s h = rw (unequal (length args) 2 h) refl
  handle-with_arity_error gt s h = rw (unequal (length args) 2 h) refl
  handle-with_arity_error and s h = rw (unequal (length args) 2 h) refl
  handle-with_arity_error or s h = rw (unequal (length args) 2 h) refl
  handle-with_arity_error not s h = rw (unequal (length args) 1 h) refl
  handle-with_arity_error xor s h = rw (unequal (length args) 2 h) refl
  handle-with_arity_error div s h = rw (unequal (length args) 2 h) refl
  handle-with_arity_error shl s h = rw (unequal (length args) 2 h) refl
  handle-with_arity_error shr s h = rw (unequal (length args) 2 h) refl
  handle-with_arity_error byte s h = rw (unequal (length args) 2 h) refl
  handle-with_arity_error signextend s h = rw (unequal (length args) 2 h) refl
  handle-with_arity_error sdiv s h = rw (unequal (length args) 2 h) refl
  handle-with_arity_error smod s h = rw (unequal (length args) 2 h) refl
  handle-with_arity_error slt s h = rw (unequal (length args) 2 h) refl
  handle-with_arity_error sgt s h = rw (unequal (length args) 2 h) refl
  handle-with_arity_error sar s h = rw (unequal (length args) 2 h) refl
