-- ===== src/Awst/WType/Equivalence/Relation.antt =====
-- structurallyEquivalent (src/awst/WType.cpp) as a relation.
use puya_sol.Prelude.{◌≡◌, refl, sym, ◌∙◌, true, some}
use puya_sol.Awst.WType.{WType}
use puya_sol.Awst.WType.Equivalence.{structurally_equivalent}
use puya_sol.Awst.WType.Equivalence.Memory.{Memory, Lives}
use puya_sol.Awst.WType.Equivalence.Correct.{structurally_equivalent_iff}

-- Among objects of one memory the answers of the code are those of an equivalence relation: every
-- type is equivalent to itself, and when it answers `true` for `l` and `m` and for `m` and `r`, it does
-- for `m` and `l` and for `l` and `r`.
pub structurally_equivalent_trans :
    (mem : Memory) (l m r : WType)
    → Lives mem l
    → Lives mem m
    → Lives mem r
    → structurally_equivalent (some l) (some m) ≡ true
    → structurally_equivalent (some m) (some r) ≡ true
    → (structurally_equivalent (some l) (some l) ≡ true)
      × (structurally_equivalent (some m) (some l) ≡ true)
      × (structurally_equivalent (some l) (some r) ≡ true)
structurally_equivalent_trans mem l m r hl hm hr h k =
    let p = (structurally_equivalent_iff mem l m hl hm).0.0 h in
    let q = (structurally_equivalent_iff mem m r hm hr).0.0 k in
    (
      (structurally_equivalent_iff mem l l hl hl).0.1 refl,
      (structurally_equivalent_iff mem m l hm hl).0.1 (sym p),
      (structurally_equivalent_iff mem l r hl hr).0.1 (p ∙ q),
    )
