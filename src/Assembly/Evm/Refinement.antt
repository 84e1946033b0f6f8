-- ===== src/Assembly/Evm/Refinement.antt =====
-- The handlers of the opcodes (src/builder/assembly) together, against the EVM.
use puya_sol.Prelude.{ℕ, ◌+◌, ◌*◌, Bool, List, [], ◌∷◌, String, eqb, ltb, if◌then◌else◌}
use puya_sol.Awst.Location.{SourceLocation}
use puya_sol.Awst.Expr.{Expression}
use puya_sol.Awst.Make.Constants.{wtype_of}
use puya_sol.Awst.Session.{Build}
use puya_sol.Avm.Machine.{Avm}
use puya_sol.Assembly.Words.{Wide}
use puya_sol.Assembly.Opcodes.{
  Opcode, mulmod, addmod, add, mul, mod_op, sub, iszero, eq, lt, gt, div, shl, shr, sdiv, smod, slt,
  sgt, handle,
}
use puya_sol.Assembly.Operand.{Operand, Computes, Decides}
use puya_sol.Assembly.Evm.{
  IsWord, add_word, mul_word, sub_word, div_word, mod_word, sdiv_word, smod_word, slt_word,
  shl_word, shr_word,
}
use puya_sol.Assembly.Evm.Division.{Known}
use puya_sol.Assembly.Evm.Unsigned.{
  handle_add-Computes, handle_mul-Computes, handle_sub-Computes, handle_div-Computes,
  handle_mod-Computes, handle_addmod-Computes, handle_mulmod-Computes, handle_compare-Decides,
  handle_iszero-Decides,
}
use puya_sol.Assembly.Evm.Signed.{handle_sdiv-Computes, handle_smod-Computes}
use puya_sol.Assembly.Evm.Order.{HasWordSign, handle_slt-Computes, handle_sgt-Computes}
use puya_sol.Assembly.Evm.Shift.{handle_shl-Computes, handle_shr-Computes}

-- A word, or a word that is 1 or 0 for a test.
pub data Answer : Type 0 where
  number : ℕ → Answer
  test : Bool → Answer

-- What the EVM answers to an opcode with its arguments, the topmost of the stack first.
pub data Evm : Opcode → List ℕ → Answer → Type 0 where
  add_words : {a b : ℕ} → Evm add (a ∷ b ∷ []) (number (add_word a b))
  mul_words : {a b : ℕ} → Evm mul (a ∷ b ∷ []) (number (mul_word a b))
  sub_words : {a b : ℕ} → Evm sub (a ∷ b ∷ []) (number (sub_word a b))
  div_words : {a b : ℕ} → Evm div (a ∷ b ∷ []) (number (div_word a b))
  mod_words : {a b : ℕ} → Evm mod_op (a ∷ b ∷ []) (number (mod_word a b))
  sdiv_words : {a b : ℕ} → Evm sdiv (a ∷ b ∷ []) (number (sdiv_word a b))
  smod_words : {a b : ℕ} → Evm smod (a ∷ b ∷ []) (number (smod_word a b))
  addmod_words : {a b c : ℕ} → Evm addmod (a ∷ b ∷ c ∷ []) (number (mod_word (a + b) c))
  mulmod_words : {a b c : ℕ} → Evm mulmod (a ∷ b ∷ c ∷ []) (number (mod_word (a * b) c))
  shl_words : {shift value : ℕ} → Evm shl (shift ∷ value ∷ []) (number (shl_word shift value))
  shr_words : {shift value : ℕ} → Evm shr (shift ∷ value ∷ []) (number (shr_word shift value))
  iszero_words : {a : ℕ} → Evm iszero (a ∷ []) (test (eqb a 0))
  eq_words : {a b : ℕ} → Evm eq (a ∷ b ∷ []) (test (eqb a b))
  lt_words : {a b : ℕ} → Evm lt (a ∷ b ∷ []) (test (ltb a b))
  gt_words : {a b : ℕ} → Evm gt (a ∷ b ∷ []) (test (ltb b a))

-- Operands that stand for words.
pub data Operands (m : Avm) : List Expression → List ℕ → Type 0 where
  no_operands : Operands m [] []
  operand :
      {x : Expression} {xs : List Expression} {n : ℕ} {ns : List ℕ}
      → Operand m x n
      → IsWord n
      → Operands m xs ns
      → Operands m (x ∷ xs) (n ∷ ns)

-- In any session, the expression that is built is a biguint with the number, or a Boolean.
abbrev pub Answers : Avm → Build Expression → Answer → Type 0
Answers m build (number n) = Computes m build n
Answers m build (test b) = Decides m build b

module _ (m : Avm) (stoull : String → ℕ) (wide : Wide) (loc : SourceLocation)
    (known : Known m wide) where
  -- For each of add, mul, sub, div, mod, sdiv, smod, addmod, mulmod, shl, shr, iszero, eq, lt and
  -- gt, and operands (biguint, uint64, Boolean, bytes or account) that stand for words, the
  -- expression that the handler builds is, in any session, a biguint with the word that the EVM
  -- computes, or a Boolean with its test, where the recorded constants are the values of their
  -- locals, over any machine that keeps the laws of Avm/Machine.
  pub handle-Answers :
      (op : Opcode) (args : List Expression) (ns : List ℕ) (answer : Answer)
      → Evm op ns answer
      → Operands m args ns
      → Answers m (handle stoull wide args loc op) answer
  unfolding handle
  handle-Answers _ _ _ _ add_words (operand x wx (operand y wy no_operands)) =
      handle_add-Computes m loc _ _ _ _ x y wx wy
  handle-Answers _ _ _ _ mul_words (operand x wx (operand y wy no_operands)) =
      handle_mul-Computes m loc _ _ _ _ x y wx wy
  handle-Answers _ _ _ _ sub_words (operand x wx (operand y wy no_operands)) =
      handle_sub-Computes m loc _ _ _ _ x y wx wy
  handle-Answers _ _ _ _ div_words (operand x wx (operand y wy no_operands)) =
      handle_div-Computes m wide loc known _ _ _ _ x y wx wy
  handle-Answers _ _ _ _ mod_words (operand x wx (operand y wy no_operands)) =
      handle_mod-Computes m wide loc known _ _ _ _ x y wx wy
  handle-Answers _ _ _ _ sdiv_words (operand x wx (operand y wy no_operands)) =
      handle_sdiv-Computes m loc _ _ _ _ x y wx wy
  handle-Answers _ _ _ _ smod_words (operand x wx (operand y wy no_operands)) =
      handle_smod-Computes m loc _ _ _ _ x y wx wy
  handle-Answers _ _ _ _ addmod_words (operand x wx (operand y wy (operand z wz no_operands))) =
      handle_addmod-Computes m wide loc known _ _ _ _ _ _ x y z wx wy
  handle-Answers _ _ _ _ mulmod_words (operand x wx (operand y wy (operand z wz no_operands))) =
      handle_mulmod-Computes m wide loc known _ _ _ _ _ _ x y z wx wy
  handle-Answers _ _ _ _ shl_words (operand x wx (operand y wy no_operands)) =
      handle_shl-Computes m loc _ _ _ _ x y wy
  handle-Answers _ _ _ _ shr_words (operand x wx (operand y wy no_operands)) =
      handle_shr-Computes m loc _ _ _ _ x y wy
  handle-Answers _ _ _ _ iszero_words (operand x wx no_operands) = handle_iszero-Decides m loc _ _ x
  handle-Answers _ _ _ _ eq_words (operand x wx (operand y wy no_operands)) =
      (handle_compare-Decides m loc _ _ _ _ x y).0
  handle-Answers _ _ _ _ lt_words (operand x wx (operand y wy no_operands)) =
      (handle_compare-Decides m loc _ _ _ _ x y).1
  handle-Answers _ _ _ _ gt_words (operand x wx (operand y wy no_operands)) =
      (handle_compare-Decides m loc _ _ _ _ x y).2

  -- For operands (biguint, uint64, Boolean, bytes or account) that stand for words, a uint64 among
  -- them below 2^63, the expressions built for `slt` and `sgt` are, in any session, biguints with
  -- 1 or 0 as the first word is below or above the second in two's complement, over any machine
  -- that keeps the laws of Avm/Machine.
  pub handle_slt_sgt-Computes :
      (x y : Expression) (a b : ℕ)
      → Operand m x a
      → Operand m y b
      → HasWordSign (wtype_of x) a
      → HasWordSign (wtype_of y) b
      → IsWord a
      → IsWord b
      → Computes m (handle stoull wide (x ∷ y ∷ []) loc slt) (if slt_word a b then 1 else 0)
        × Computes m (handle stoull wide (x ∷ y ∷ []) loc sgt) (if slt_word b a then 1 else 0)
  unfolding handle
  handle_slt_sgt-Computes x y a b hx hy sx sy wa wb = (
    handle_slt-Computes m loc x y a b hx hy sx sy wa wb,
    handle_sgt-Computes m loc x y a b hx hy sx sy wa wb,
  )
