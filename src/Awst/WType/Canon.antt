-- ===== src/Awst/WType/Canon.antt =====
-- The content of a type: what is left of a `WType` (src/awst/WType.h) when object addresses are
-- forgotten. A transaction type is kept as far as its name tells it apart.
use puya_sol.Prelude.{
  false, zero, suc, ◌<◌, ◌↔◌, ℕ, ◌≡◌, refl, sym, ap, ◌∙◌, Bool, true, ◌&&◌, Option, none, some,
  String, ◌<>◌, ℤ, pos, ◌==◌, if◌then◌else◌, arith, int_eq, nat_eq, string_eq,
}
use puya_sol.Awst.WType.{
  all_immutable, BasicType, void_type, bool_type, uint64_type, biguint_type, string_type,
  account_type, application_type, state_key_type, box_key_type, arc4_bool_type, WType, basic, bytes,
  arc4_uint_n, arc4_ufixed_nxm, arc4_tuple, arc4_dynamic_array, arc4_static_array, arc4_struct,
  reference_array, w_tuple, w_inner_transaction_fields, w_inner_transaction, WTypes, nil, cons,
  StructFields, no_fields, field, kind, immutable, basic_name, txn_type_suffix, txn_name,
}

-- 0 stands for every transaction type whose suffix is "unknown".
abbrev pub txn_code : ℤ → ℕ
txn_code t =
    if t == pos 1
    then 1
    else if t == pos 2
    then 2
    else if t == pos 3
    then 3
    else if t == pos 4
    then 4
    else if t == pos 5
    then 5
    else if t == pos 6
    then 6
    else 0

abbrev pub canon_txn : Option ℤ → Option ℕ
canon_txn none = none
canon_txn (some t) = some (txn_code t)

abbrev pub int_of : Option ℕ → Option ℤ
int_of none = none
int_of (some n) = some (pos n)

unfoldable mutual
  pub canon : WType → WType
  canon (basic b) = basic b
  canon (bytes _ n) = bytes 0 n
  canon (arc4_uint_n _ n alias) = arc4_uint_n 0 n alias
  canon (arc4_ufixed_nxm _ n m) = arc4_ufixed_nxm 0 n m
  canon (arc4_tuple _ ts) = arc4_tuple 0 (canon_types ts)
  canon (arc4_dynamic_array _ t alias) = arc4_dynamic_array 0 (canon t) alias
  canon (arc4_static_array _ t n alias) = arc4_static_array 0 (canon t) n alias
  canon (arc4_struct _ n fs frozen) = arc4_struct 0 n (canon_fields fs) frozen
  canon (reference_array _ t flag n) = reference_array 0 (canon t) flag n
  canon (w_tuple _ ts names n) = w_tuple 0 (canon_types ts) names n
  canon (w_inner_transaction_fields _ t) = w_inner_transaction_fields 0 (int_of (canon_txn t))
  canon (w_inner_transaction _ t) = w_inner_transaction 0 (int_of (canon_txn t))

  pub canon_types : WTypes → WTypes
  canon_types nil = nil
  canon_types (cons t ts) = cons (canon t) (canon_types ts)

  pub canon_fields : StructFields → StructFields
  canon_fields no_fields = no_fields
  canon_fields (field n t fs) = field n (canon t) (canon_fields fs)

pub kind-canon : (t : WType) → kind (canon t) ≡ kind t
unfolding canon
kind-canon (basic _) = refl
kind-canon _ = refl

mutual
  unfolding canon immutable

  pub immutable-canon : (t : WType) → immutable (canon t) ≡ immutable t
  immutable-canon (arc4_struct _ n fs frozen) = ap (λ b. frozen && b) (all_immutable-canon fs)
  immutable-canon _ = refl

  all_immutable-canon : (fs : StructFields) → all_immutable (canon_fields fs) ≡ all_immutable fs
  all_immutable-canon no_fields = refl
  all_immutable-canon (field n t fs) = rw (immutable-canon t, all_immutable-canon fs)

-- Names are read back, so that they tell types apart.
abbrev pub read_basic : String → Option BasicType
read_basic s =
    if s == "void"
    then some void_type
    else if s == "bool"
    then some bool_type
    else if s == "uint64"
    then some uint64_type
    else if s == "biguint"
    then some biguint_type
    else if s == "string"
    then some string_type
    else if s == "account"
    then some account_type
    else if s == "application"
    then some application_type
    else if s == "state_key"
    then some state_key_type
    else if s == "box_key"
    then some box_key_type
    else some arc4_bool_type

pub read_basic-basic_name : (b : BasicType) → read_basic (basic_name b) ≡ some b
read_basic-basic_name void_type = refl
read_basic-basic_name _ = refl

pub basic_name_injective : (a b : BasicType) → basic_name a ≡ basic_name b → a ≡ b
basic_name_injective a b h =
    let e : some a ≡ some b =
      sym (read_basic-basic_name a) ∙ (ap read_basic h ∙ read_basic-basic_name b) in
    cc e

abbrev suffix_of : ℕ → String
suffix_of n =
    if n == 1
    then "pay"
    else if n == 2
    then "keyreg"
    else if n == 3
    then "acfg"
    else if n == 4
    then "axfer"
    else if n == 5
    then "afrz"
    else if n == 6
    then "appl"
    else "unknown"

txn_type_suffix-txn_code : (t : ℤ) → txn_type_suffix t ≡ suffix_of (txn_code t)
txn_type_suffix-txn_code t = ground arith

txn_code-lt : (t : ℤ) → txn_code t < 7
txn_code-lt t = ground arith

-- The two prefixes that transaction types have.
abbrev pub prefix : Bool → String
prefix true = "inner_transaction_fields"
prefix false = "inner_transaction"

abbrev code_name : Bool → Option ℕ → String
code_name b none = prefix b
code_name b (some n) = prefix b <> ("_" <> suffix_of n)

abbrev read_txn : Bool → String → Option ℕ
read_txn b s =
    if s == prefix b
    then none
    else if s == code_name b (some 1)
    then some 1
    else if s == code_name b (some 2)
    then some 2
    else if s == code_name b (some 3)
    then some 3
    else if s == code_name b (some 4)
    then some 4
    else if s == code_name b (some 5)
    then some 5
    else if s == code_name b (some 6)
    then some 6
    else some 0

read_txn-code_name : (b : Bool) (n : ℕ) → n < 7 → read_txn b (code_name b (some n)) ≡ some n
read_txn-code_name true zero h = refl
read_txn-code_name true (suc zero) h = refl
read_txn-code_name true (suc (suc zero)) h = refl
read_txn-code_name true (suc (suc (suc zero))) h = refl
read_txn-code_name true (suc (suc (suc (suc zero)))) h = refl
read_txn-code_name true (suc (suc (suc (suc (suc zero))))) h = refl
read_txn-code_name true (suc (suc (suc (suc (suc (suc zero)))))) h = refl
read_txn-code_name true (suc (suc (suc (suc (suc (suc (suc n))))))) h = absurd (omega arith)
read_txn-code_name false zero h = refl
read_txn-code_name false (suc zero) h = refl
read_txn-code_name false (suc (suc zero)) h = refl
read_txn-code_name false (suc (suc (suc zero))) h = refl
read_txn-code_name false (suc (suc (suc (suc zero)))) h = refl
read_txn-code_name false (suc (suc (suc (suc (suc zero))))) h = refl
read_txn-code_name false (suc (suc (suc (suc (suc (suc zero)))))) h = refl
read_txn-code_name false (suc (suc (suc (suc (suc (suc (suc n))))))) h = absurd (omega arith)

read_txn-txn_name : (b : Bool) (t : Option ℤ) → read_txn b (txn_name (prefix b) t) ≡ canon_txn t
read_txn-txn_name true none = refl
read_txn-txn_name false none = refl
read_txn-txn_name b (some t) =
    ap (λ s. read_txn b (prefix b <> ("_" <> s))) (txn_type_suffix-txn_code t)
    ∙ read_txn-code_name b (txn_code t) (txn_code-lt t)

-- Two transaction types have the same name exactly when their codes agree.
pub txn_name_iff :
    (b : Bool) (s t : Option ℤ)
    → (txn_name (prefix b) s ≡ txn_name (prefix b) t) ↔ (canon_txn s ≡ canon_txn t)
txn_name_iff b s t = (
  λ h. sym (read_txn-txn_name b s) ∙ (ap (read_txn b) h ∙ read_txn-txn_name b t),
  λ h. txn_name_of_code s t h,
)
  where
    txn_name_of_code :
        (s t : Option ℤ) → canon_txn s ≡ canon_txn t → txn_name (prefix b) s ≡ txn_name (prefix b) t
    txn_name_of_code none none h = refl
    txn_name_of_code none (some t) h = cc
    txn_name_of_code (some s) none h = cc
    txn_name_of_code (some s) (some t) h =
        let e : txn_code s ≡ txn_code t = cc in
        ap (λ x. prefix b <> ("_" <> x))
          (txn_type_suffix-txn_code s ∙ (ap suffix_of e ∙ sym (txn_type_suffix-txn_code t)))

pub int_of_injective : (s t : Option ℕ) → int_of s ≡ int_of t → s ≡ t
int_of_injective none none h = refl
int_of_injective none (some b) h = cc
int_of_injective (some a) none h = cc
int_of_injective (some a) (some b) h = cc
