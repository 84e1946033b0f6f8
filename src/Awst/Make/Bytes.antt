-- ===== src/Awst/Make/Bytes.antt =====
-- AVM byte operations as expressions (src/awst/Node.h).
use puya_sol.Prelude.{ℕ, ℤ, none, some, List, [], ◌∷◌, String}
use puya_sol.Awst.Location.{SourceLocation}
use puya_sol.Awst.Operators.{Immediate, number, sub, mod_op}
use puya_sol.Awst.Expr.{Expression, node, intrinsic_call, Expressions, nil, cons}
use puya_sol.Awst.Session.{Build, pure, ◌>>=◌}
use puya_sol.Awst.Make.Constants.{Ty, uint64_t, bytes_t, make_integer_constant, make_integer_of}
use puya_sol.Awst.Make.Operations.{make_uint64_bin_op, make_eval_once}

-- makeIntrinsicCall, with the arguments that its callers append.
abbrev pub make_intrinsic_call :
    String → Ty → SourceLocation → List Immediate → Expressions → Expression
make_intrinsic_call op_code wtype loc immediates stack_args =
    node loc wtype (intrinsic_call op_code immediates stack_args)

abbrev one : Expression → Expressions
one a = cons a nil

abbrev two : Expression → Expression → Expressions
two a b = cons a (cons b nil)

abbrev three : Expression → Expression → Expression → Expressions
three a b c = cons a (cons b (cons c nil))

abbrev type_or : Ty → Ty → Ty
type_or (some t) d = some t
type_or none d = d

abbrev pub make_itob : Expression → SourceLocation → Expression
make_itob e loc = make_intrinsic_call "itob" bytes_t loc [] (one e)

abbrev pub make_btoi : Expression → SourceLocation → Ty → Expression
make_btoi e loc wtype = make_intrinsic_call "btoi" (type_or wtype uint64_t) loc [] (one e)

abbrev pub make_len : Expression → SourceLocation → Expression
make_len e loc = make_intrinsic_call "len" uint64_t loc [] (one e)

abbrev pub make_concat : Expression → Expression → SourceLocation → Expression
make_concat left right loc = make_intrinsic_call "concat" bytes_t loc [] (two left right)

abbrev pub make_extract : Expression → ℤ → ℤ → SourceLocation → Expression
make_extract e offset length loc =
    make_intrinsic_call "extract" bytes_t loc (number offset ∷ number length ∷ []) (one e)

abbrev pub make_extract3 : Expression → Expression → Expression → SourceLocation → Ty → Expression
make_extract3 e offset length loc wtype =
    make_intrinsic_call "extract3" (type_or wtype bytes_t) loc [] (three e offset length)

abbrev pub make_extract_uint64 : Expression → Expression → SourceLocation → Ty → Expression
make_extract_uint64 e offset loc wtype =
    make_intrinsic_call "extract_uint64" (type_or wtype uint64_t) loc [] (two e offset)

abbrev pub make_replace3 : Expression → Expression → Expression → SourceLocation → Expression
make_replace3 e offset replacement loc =
    make_intrinsic_call "replace3" bytes_t loc [] (three e offset replacement)

-- makeBzero for a count computed at run time, and for a constant.
abbrev pub make_bzero : Expression → SourceLocation → Expression
make_bzero count loc = make_intrinsic_call "bzero" bytes_t loc [] (one count)

abbrev pub make_bzero_of : ℕ → SourceLocation → Expression
make_bzero_of count loc = make_bzero (make_integer_of count loc) loc

abbrev pub make_bytes_or : Expression → Expression → SourceLocation → Expression
make_bytes_or lhs rhs loc = make_intrinsic_call "b|" bytes_t loc [] (two lhs rhs)

unfoldable pub make_left_pad : Expression → ℕ → SourceLocation → Expression
make_left_pad value pad_bytes loc = make_concat (make_bzero_of pad_bytes loc) value loc

unfoldable pub make_right_pad : Expression → ℕ → SourceLocation → Expression
make_right_pad value pad_bytes loc = make_concat value (make_bzero_of pad_bytes loc) loc

unfoldable pub make_zero_extend_to_n : Expression → ℕ → SourceLocation → Expression
make_zero_extend_to_n value n loc = make_bytes_or (make_bzero_of n loc) value loc

unfoldable pub make_right_pad_to32_multiple : Expression → SourceLocation → Expression
make_right_pad_to32_multiple bytes loc =
    let thirty_two = make_integer_constant "32" loc uint64_t in
    let mod_part = make_uint64_bin_op (make_len bytes loc) mod_op thirty_two loc in
    let rest = make_uint64_bin_op thirty_two sub mod_part loc in
    let pad = make_uint64_bin_op rest mod_op thirty_two loc in
    make_concat bytes (make_bzero pad loc) loc

unfoldable pub make_uint16_bytes : Expression → SourceLocation → Expression
make_uint16_bytes value loc =
    make_extract3 (make_itob value loc) (make_integer_constant "6" loc uint64_t)
      (make_integer_constant "2" loc uint64_t) loc none

-- extract3(e, len(e) - n, n).
abbrev pub last_n : Expression → ℕ → SourceLocation → Expression
last_n e n loc =
    make_extract3 e (make_uint64_bin_op (make_len e loc) sub (make_integer_of n loc) loc)
      (make_integer_of n loc) loc none

unfoldable pub make_extract_last_n : Expression → ℕ → SourceLocation → Build Expression
unfolding make_eval_once
make_extract_last_n e n loc = do once ← make_eval_once e loc; pure (last_n once n loc)

unfoldable pub make_left_pad_to_n : Expression → ℕ → SourceLocation → Build Expression
unfolding make_eval_once make_left_pad
make_left_pad_to_n value n loc = do
  padded ← make_eval_once (make_left_pad value n loc) loc
  pure (last_n padded n loc)

abbrev pub make_setbit : Expression → Expression → Expression → SourceLocation → Expression
make_setbit e bit_idx value loc =
    make_intrinsic_call "setbit" bytes_t loc [] (three e bit_idx value)

abbrev pub make_getbit : Expression → Expression → SourceLocation → Expression
make_getbit e bit_idx loc = make_intrinsic_call "getbit" uint64_t loc [] (two e bit_idx)
