-- ===== src/Awst/WType/Equivalence.antt =====
-- structurallyEquivalent and equivalentImpl (src/awst/WType.cpp). The set of visited pairs of
-- pointers is passed on explicitly; a `static_cast` behind the test on `kind()` is `downcast`.
pub mod Memory
pub mod Steps
pub mod Correct
pub mod Relation
use puya_sol.Prelude.{
  ℕ, Bool, true, false, ◌&&◌, ◌||◌, not, Option, none, some, List, [], ◌∷◌, String, ℤ, ◌==◌,
  if◌then◌else◌, nat_eq, int_eq, string_eq, bool_eq, option_eq, list_eq, suc, ◌+◌,
}
use puya_sol.Awst.WType.{
  WTypeKind, basic_kind, bytes_kind, arc4_uint_n_kind, arc4_ufixed_nxm_kind, arc4_tuple_kind,
  arc4_dynamic_array_kind, arc4_static_array_kind, arc4_struct_kind, reference_array_kind,
  w_tuple_kind, w_group_transaction_kind, w_inner_transaction_fields_kind, w_inner_transaction_kind,
  WType, basic, bytes, arc4_uint_n, arc4_ufixed_nxm, arc4_tuple, arc4_dynamic_array,
  arc4_static_array, arc4_struct, reference_array, w_tuple, w_inner_transaction_fields,
  w_inner_transaction, WTypes, nil, cons, StructFields, no_fields, field, kind, immutable, name,
  addr, ptr_eq,
}

-- The value of an enumerator.
abbrev pub kind_index : WTypeKind → ℕ
kind_index basic_kind = 0
kind_index bytes_kind = 1
kind_index arc4_uint_n_kind = 2
kind_index arc4_ufixed_nxm_kind = 3
kind_index arc4_tuple_kind = 4
kind_index arc4_dynamic_array_kind = 5
kind_index arc4_static_array_kind = 6
kind_index arc4_struct_kind = 7
kind_index reference_array_kind = 8
kind_index w_tuple_kind = 9
kind_index w_group_transaction_kind = 10
kind_index w_inner_transaction_fields_kind = 11
kind_index w_inner_transaction_kind = 12

abbrev pub Seen : Type 0
Seen = List (ℕ × ℕ)

unfoldable pub seen_pair : ℕ → ℕ → Seen → Bool
seen_pair a b [] = false
seen_pair a b ((c, d) ∷ rest) = (a == c && b == d) || seen_pair a b rest

abbrev pub Answer : Type 0
Answer = Bool × Seen

-- The tests in front of the `switch`, and the entry into the set.
unfoldable pub enter : WType → WType → Seen → (Seen → Answer) → Answer
enter l r seen k =
    if ptr_eq l r
    then (true, seen)
    else if not (kind_index (kind l) == kind_index (kind r)) || not (immutable l == immutable r)
    then (false, seen)
    else if seen_pair (addr l) (addr r) seen
    then (true, seen)
    else k ((addr l, addr r) ∷ seen)

-- `first && second`, where both may enlarge the set.
abbrev pub and_then : Answer → (Seen → Answer) → Answer
and_then first second = elim first.0 [ true ↦ second first.1 | false ↦ (false, first.1) ]

abbrev pub downcast {ℓ} : {A : Type ℓ} → Option A → Seen → (A → Answer) → Answer
downcast none seen k = (false, seen)
downcast (some a) seen k = k a

abbrev pub tuple_types : WType → Option WTypes
tuple_types (arc4_tuple _ ts) = some ts
tuple_types _ = none

abbrev pub dynamic_array : WType → Option (WType × String)
dynamic_array (arc4_dynamic_array _ t alias) = some (t, alias)
dynamic_array _ = none

abbrev pub static_array : WType → Option (WType × ℤ × String)
static_array (arc4_static_array _ t n alias) = some (t, n, alias)
static_array _ = none

abbrev pub struct : WType → Option (String × StructFields × Bool)
struct (arc4_struct _ n fs frozen) = some (n, fs, frozen)
struct _ = none

abbrev pub reference : WType → Option (WType × Option ℤ)
reference (reference_array _ t _ n) = some (t, n)
reference _ = none

abbrev pub tuple : WType → Option (WTypes × Option (List String) × String)
tuple (w_tuple _ ts names n) = some (ts, names, n)
tuple _ = none

abbrev pub bytes_length : WType → Option (Option ℤ)
bytes_length (bytes _ n) = some n
bytes_length _ = none

abbrev pub uint_n : WType → Option (ℤ × String)
uint_n (arc4_uint_n _ n alias) = some (n, alias)
uint_n _ = none

abbrev pub ufixed : WType → Option (ℤ × ℤ)
ufixed (arc4_ufixed_nxm _ n m) = some (n, m)
ufixed _ = none

abbrev pub types_size : WTypes → ℕ
types_size nil = 0
types_size (cons _ ts) = suc (types_size ts)

abbrev pub fields_size : StructFields → ℕ
fields_size no_fields = 0
fields_size (field _ _ fs) = suc (fields_size fs)

unfoldable mutual
  pub equivalent_impl : WType → WType → Seen → Answer
  equivalent_impl (basic b) r seen = enter (basic b) r seen λ s. (name (basic b) == name r, s)
  equivalent_impl (bytes a n) r seen =
      enter (bytes a n) r seen λ s. downcast (bytes_length r) s λ m. (n == m, s)
  equivalent_impl (arc4_uint_n a n alias) r seen =
      enter (arc4_uint_n a n alias) r seen
        λ s. downcast (uint_n r) s λ (m, alias'). (n == m && alias == alias', s)
  equivalent_impl (arc4_ufixed_nxm a n m) r seen =
      enter (arc4_ufixed_nxm a n m) r seen
        λ s. downcast (ufixed r) s λ (n', m'). (n == n' && m == m', s)
  equivalent_impl (arc4_tuple a ts) r seen = enter (arc4_tuple a ts) r seen λ s.
      downcast (tuple_types r) s
        λ us. and_then (types_size ts == types_size us, s) (items_equal ts us)
  equivalent_impl (arc4_dynamic_array a t alias) r seen =
      enter (arc4_dynamic_array a t alias) r seen λ s.
        downcast (dynamic_array r) s
          λ (u, alias'). and_then (alias == alias', s) (equivalent_impl t u)
  equivalent_impl (arc4_static_array a t n alias) r seen =
      enter (arc4_static_array a t n alias) r seen λ s.
        downcast (static_array r) s
          λ (u, m, alias'). and_then (n == m && alias == alias', s) (equivalent_impl t u)
  equivalent_impl (arc4_struct a n fs frozen) r seen = enter (arc4_struct a n fs frozen) r seen λ s.
      downcast (struct r) s λ (m, gs, frozen').
        and_then (n == m && frozen == frozen' && fields_size fs == fields_size gs, s)
          (fields_equal fs gs)
  equivalent_impl (reference_array a t flag n) r seen =
      enter (reference_array a t flag n) r seen
        λ s. downcast (reference r) s λ (u, m). and_then (n == m, s) (equivalent_impl t u)
  equivalent_impl (w_tuple a ts names n) r seen = enter (w_tuple a ts names n) r seen λ s.
      downcast (tuple r) s λ (us, names', m).
        and_then (n == m && names == names' && types_size ts == types_size us, s)
          (items_equal ts us)
  equivalent_impl (w_inner_transaction_fields a t) r seen =
      enter (w_inner_transaction_fields a t) r seen
        λ s. (name (w_inner_transaction_fields a t) == name r, s)
  equivalent_impl (w_inner_transaction a t) r seen =
      enter (w_inner_transaction a t) r seen λ s. (name (w_inner_transaction a t) == name r, s)

  -- The loop over `left[i]` and `right[i]`; the sizes are equal when it starts.
  pub items_equal : WTypes → WTypes → Seen → Answer
  items_equal nil us seen = (true, seen)
  items_equal (cons t ts) nil seen = (false, seen)
  items_equal (cons t ts) (cons u us) seen = and_then (equivalent_impl t u seen) (items_equal ts us)

  pub fields_equal : StructFields → StructFields → Seen → Answer
  fields_equal no_fields gs seen = (true, seen)
  fields_equal (field n t fs) no_fields seen = (false, seen)
  fields_equal (field n t fs) (field m u gs) seen =
      and_then (and_then (n == m, seen) (equivalent_impl t u)) (fields_equal fs gs)

-- `none` is a null pointer.
unfoldable pub structurally_equivalent : Option WType → Option WType → Bool
structurally_equivalent none none = true
structurally_equivalent none (some r) = false
structurally_equivalent (some l) none = false
structurally_equivalent (some l) (some r) = (equivalent_impl l r []).0
