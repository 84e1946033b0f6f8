-- ===== src/Examples/Opcodes.antt =====
-- Opcodes on constants, over the evaluator.
use puya_sol.Prelude.{
  ℕ, ◌-◌, ◌^◌, ◌<◌, ◌≡◌, ◌≢◌, refl, true, none, [], ◌∷◌, if◌then◌else◌, ltb→lt, length, ltb,
}
use puya_sol.Awst.Location.{default_location}
use puya_sol.Awst.Expr.{Expression, null}
use puya_sol.Awst.Session.{fresh_session}
use puya_sol.Awst.Make.Constants.{make_biguint_constant, make_integer_constant, uint64_t}
use puya_sol.Avm.Decimal.{read_from}
use puya_sol.Avm.Machine.{Avm}
use puya_sol.Avm.Reference.Laws.{reference}
use puya_sol.Assembly.Words.{Wide, ensure_biguint}
use puya_sol.Prelude.{ℤ, String, ◌%◌, pos, ◌==◌, string_eq, to_string}
use puya_sol.Assembly.Exp.{fold_exp, fold_exp-power}
use puya_sol.Assembly.Opcodes.{
  sdiv, slt, sgt, operands, handle, with_arity_error, handle-with_arity_error,
}
use puya_sol.Assembly.Operand.{
  Operand, stack_uint, Computes, as-Operand, constant-Holds, ensure_biguint-Computes,
}
use puya_sol.Assembly.Evm.{sdiv_word, slt_word}
use puya_sol.Assembly.Evm.Division.{Known}
use puya_sol.Assembly.Evm.Refinement.{
  Answers, number, sdiv_words, no_operands, operand, handle-Answers, handle_slt_sgt-Computes,
}

-- No variable has a value.
abbrev machine : Avm
machine = reference (λ x. none)

abbrev ten : Expression
ten = make_biguint_constant "10" default_location

ten-Operand : Operand machine ten 10
unfolding read_from
ten-Operand =
    as-Operand machine (constant-Holds machine "10" default_location refl (ltb→lt _ _ refl))

abbrev three : Expression
three = make_integer_constant "3" default_location uint64_t

three-Operand : Operand machine three 3
unfolding read_from
three-Operand =
    stack_uint (machine.constant "3" default_location uint64_t refl refl (ltb→lt _ _ refl))
      (ltb→lt _ _ refl)

-- The word of -7.
abbrev minus_seven : Expression
minus_seven =
    make_biguint_constant
      "115792089237316195423570985008687907853269984665640564039457584007913129639929"
      default_location

minus_seven-Operand : Operand machine minus_seven (2 ^ 256 - 7)
unfolding read_from
minus_seven-Operand = as-Operand machine (
    constant-Holds machine
      "115792089237316195423570985008687907853269984665640564039457584007913129639929"
      default_location refl (ltb→lt _ _ refl))

abbrev nothing_recorded : Wide
nothing_recorded = []

nothing-Known : Known machine nothing_recorded
nothing-Known x v loc t n h o = absurd cc

small : (n : ℕ) → ltb n (2 ^ 256) ≡ true → n < 2 ^ 256
small n h = ltb→lt n (2 ^ 256) h

ensure_biguint-Computes_example : Computes machine (ensure_biguint three default_location) 3
ensure_biguint-Computes_example =
    ensure_biguint-Computes machine three 3 default_location three-Operand

one_is_not_two : length (ten ∷ []) ≢ operands sdiv
unfolding operands
one_is_not_two h = cc

handle-with_arity_error_example :
    handle (λ v. 0) nothing_recorded (ten ∷ []) default_location sdiv fresh_session ≡ (
      null,
      with_arity_error (λ v. 0) nothing_recorded (ten ∷ []) default_location sdiv fresh_session,
    )
handle-with_arity_error_example =
    handle-with_arity_error (λ v. 0) nothing_recorded (ten ∷ []) default_location sdiv fresh_session
      one_is_not_two

handle-Answers_example :
    Answers machine
      (handle (λ v. 0) nothing_recorded (minus_seven ∷ three ∷ []) default_location sdiv)
      (number (sdiv_word (2 ^ 256 - 7) 3))
handle-Answers_example =
    handle-Answers machine (λ v. 0) nothing_recorded default_location nothing-Known sdiv
      (minus_seven ∷ three ∷ []) ((2 ^ 256 - 7) ∷ 3 ∷ []) (number (sdiv_word (2 ^ 256 - 7) 3))
      sdiv_words
      (operand minus_seven-Operand (small (2 ^ 256 - 7) refl)
        (operand three-Operand (small 3 refl) no_operands))

handle_slt_sgt-Computes_example :
    Computes machine
      (handle (λ v. 0) nothing_recorded (minus_seven ∷ three ∷ []) default_location slt)
      (if slt_word (2 ^ 256 - 7) 3 then 1 else 0)
    × Computes machine
        (handle (λ v. 0) nothing_recorded (minus_seven ∷ three ∷ []) default_location sgt)
        (if slt_word 3 (2 ^ 256 - 7) then 1 else 0)
handle_slt_sgt-Computes_example =
    handle_slt_sgt-Computes machine (λ v. 0) nothing_recorded default_location nothing-Known
      minus_seven three (2 ^ 256 - 7) 3 minus_seven-Operand three-Operand (λ h. absurd cc)
      (λ h. ltb→lt 3 (2 ^ 63) refl) (small (2 ^ 256 - 7) refl) (small 3 refl)

-- Reads the two texts of exp(256, 12).
abbrev two_texts : String → ℤ
two_texts v = if v == "256" then pos 256 else pos 12

fold_exp-power_example : fold_exp two_texts "256" "12" ≡ to_string (256 ^ 12 % 2 ^ 256)
fold_exp-power_example = fold_exp-power two_texts "256" "12" 256 12 refl refl
