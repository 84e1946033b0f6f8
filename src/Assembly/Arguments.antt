-- ===== src/Assembly/Arguments.antt =====
-- The arguments of an opcode: AssemblyBuilder::checkArity and the helpers that most handlers are made
-- of (src/builder/assembly/ArithmeticOps.cpp).
use puya_sol.Prelude.{
  ℕ, zero, suc, Bool, true, false, Option, none, some, List, [], ◌∷◌, String, ◌<>◌, if◌then◌else◌,
  eqb, length, to_string,
}
use puya_sol.Awst.Location.{SourceLocation}
use puya_sol.Awst.Operators.{NumericComparison}
use puya_sol.Awst.Expr.{Expression, null, cons, nil}
use puya_sol.Awst.Session.{Build, pure, ◌>>=◌, ◌>>◌, log_error}
use puya_sol.Awst.Make.Constants.{bytes_t}
use puya_sol.Awst.Make.Operations.{make_numeric_compare}
use puya_sol.Awst.Make.Bytes.{make_intrinsic_call}
use puya_sol.Awst.Make.Casts.{make_as_bytes, make_as_biguint}
use puya_sol.Assembly.Words.{ensure_biguint}

abbrev pub hint_text : Option String → String
hint_text none = ""
hint_text (some hint) = " (" <> (hint <> ")")

abbrev pub arity_message : String → ℕ → Option String → String
arity_message name n hint =
    name
    <> (" requires "
        <> (to_string n <> ((if eqb n 1 then " argument" else " arguments") <> hint_text hint)))

unfoldable pub check_arity : List Expression → ℕ → String → Option String → Build Bool
unfolding log_error
check_arity args n name hint =
    if eqb (length args) n
    then pure true
    else (do log_error (arity_message name n hint); pure false)

-- `_args[i]`, which is only read when the number of arguments is right.
abbrev pub argument : List Expression → ℕ → Expression
argument [] i = null
argument (e ∷ es) zero = e
argument (e ∷ es) (suc i) = argument es i

-- `if (!checkArity(_args, n, name, _loc)) return nullptr;` and the rest of the handler.
abbrev pub guarded : ℕ → String → List Expression → Build Expression → Build Expression
unfolding check_arity
guarded n name args body = do ok ← check_arity args n name none; if ok then body else pure null

unfoldable pub make_yul_compare :
    List Expression → NumericComparison → String → SourceLocation → Build Expression
unfolding ensure_biguint
make_yul_compare args op name loc = guarded 2 name args (do
  a ← ensure_biguint (argument args 0) loc
  b ← ensure_biguint (argument args 1) loc
  pure (make_numeric_compare a op b loc))

unfoldable pub make_yul_bitwise :
    String → List Expression → String → SourceLocation → Build Expression
unfolding ensure_biguint
make_yul_bitwise op args name loc = guarded 2 name args (do
  a ← ensure_biguint (argument args 0) loc
  b ← ensure_biguint (argument args 1) loc
  pure (
      make_as_biguint
        (make_intrinsic_call op bytes_t loc []
          (cons (make_as_bytes a loc) (cons (make_as_bytes b loc) nil)))
        loc))
