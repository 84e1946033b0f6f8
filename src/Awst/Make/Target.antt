-- ===== src/Awst/Make/Target.antt =====
-- unwrapStateGet, makeWritableTarget and isRawStorageRead of src/awst/Node.h. Where the base does not
-- change, the source returns the node that it got; its copy would be equal, so the model has one
-- clause for both.
pub mod Path
use puya_sol.Prelude.{Bool, true, false}
use puya_sol.Awst.Expr.{
  Expression, node, index_expression, field_expression, state_get, arc4_decode,
  box_value_expression, app_state_expression,
}

unfoldable pub unwrap_state_get : Expression → Expression
unwrap_state_get (node _ _ (state_get field _)) = field
unwrap_state_get e = e

unfoldable pub make_writable_target : Expression → Expression
make_writable_target (node loc t (index_expression base i)) =
    node loc t (index_expression (make_writable_target base) i)
make_writable_target (node loc t (field_expression base name)) =
    node loc t (field_expression (make_writable_target base) name)
make_writable_target (node _ _ (state_get field _)) = make_writable_target field
make_writable_target (node _ _ (arc4_decode value)) = make_writable_target value
make_writable_target e = e

unfoldable pub is_raw_storage_read : Expression → Bool
is_raw_storage_read (node _ _ (box_value_expression _ _)) = true
is_raw_storage_read (node _ _ (app_state_expression _ _)) = true
is_raw_storage_read _ = false
