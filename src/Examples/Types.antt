-- ===== src/Examples/Types.antt =====
-- Two array types with the same content at different addresses.
use puya_sol.Prelude.{◌≡◌, refl, ◌↔◌, true, false, none, some, pos, if◌then◌else◌, eqb}
use puya_sol.Awst.WType.{name, immutable, WType, arc4_uint_n, arc4_dynamic_array}
use puya_sol.Awst.WType.Canon.{canon}
use puya_sol.Awst.WType.Equivalence.{structurally_equivalent, equivalent_impl, enter, seen_pair}
use puya_sol.Awst.WType.Equivalence.Memory.{Memory, Lives}
use puya_sol.Awst.WType.Equivalence.Relation.{structurally_equivalent_trans}
use puya_sol.Awst.WType.Equivalence.Correct.{structurally_equivalent_iff}
use puya_sol.Json.Serializer.Types.{serialize_wtype, type_members, type_document}
use puya_sol.Json.Serializer.Types.Read.{serialize_wtype-equivalent}

abbrev word_a : WType
word_a = arc4_uint_n 100 (pos 256) ""

abbrev word_b : WType
word_b = arc4_uint_n 101 (pos 256) ""

abbrev array_a : WType
array_a = arc4_dynamic_array 102 word_a "uint256[]"

abbrev array_b : WType
array_b = arc4_dynamic_array 103 word_b "uint256[]"

-- The code answers `true` for the two arrays.
same_content : structurally_equivalent (some array_a) (some array_b) ≡ true
unfolding structurally_equivalent equivalent_impl enter seen_pair name immutable
same_content = refl

same_array : structurally_equivalent (some array_b) (some array_b) ≡ true
unfolding structurally_equivalent equivalent_impl enter seen_pair name immutable
same_array = refl

abbrev memory : Memory
memory n =
    if eqb n 100
    then word_a
    else if eqb n 101
    then word_b
    else if eqb n 102
    then array_a
    else array_b

structurally_equivalent_iff_example :
    ((structurally_equivalent (some array_a) (some array_b) ≡ true)
      ↔ (canon array_a ≡ canon array_b))
    × (structurally_equivalent none none ≡ true)
    × (structurally_equivalent (some array_a) none ≡ false)
    × (structurally_equivalent none (some array_b) ≡ false)
unfolding Lives
structurally_equivalent_iff_example =
    structurally_equivalent_iff memory array_a array_b (refl, (refl, tt)) (refl, (refl, tt))

structurally_equivalent_trans_example :
    (structurally_equivalent (some array_a) (some array_a) ≡ true)
    × (structurally_equivalent (some array_b) (some array_a) ≡ true)
    × (structurally_equivalent (some array_a) (some array_b) ≡ true)
unfolding Lives
structurally_equivalent_trans_example =
    structurally_equivalent_trans memory array_a array_b array_b (refl, (refl, tt))
      (refl, (refl, tt)) (refl, (refl, tt)) same_content same_array

same_document : serialize_wtype (some array_a) ≡ serialize_wtype (some array_b)
unfolding type_members name immutable type_document
same_document = refl

serialize_wtype-equivalent_example : structurally_equivalent (some array_a) (some array_b) ≡ true
unfolding Lives
serialize_wtype-equivalent_example =
    serialize_wtype-equivalent memory array_a array_b (refl, (refl, tt)) (refl, (refl, tt))
      same_document
