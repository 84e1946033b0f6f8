-- ===== src/Awst/WType/Equivalence/Steps.antt =====
-- The steps of the induction over equivalentImpl (src/awst/WType.cpp).
use puya_sol.Prelude.{
  ℕ, suc, ◌<◌, ◌≤◌, ◌≡◌, refl, sym, ap, ◌∙◌, ◌↔◌, inl, inr, Bool, true, false, ◌&&◌, arith, nat_eq,
  bool_eq, int_eq, string_eq, option_eq, list_eq,
}
use puya_sol.Awst.WType.{
  BasicType, WType, basic, WTypes, nil, cons, StructFields, no_fields, field, addr,
}
use puya_sol.Awst.WType.Canon.{canon, canon_types, canon_fields}
use puya_sol.Awst.WType.Equivalence.{
  Seen, Answer, and_then, equivalent_impl, items_equal, fields_equal, types_size, fields_size,
}
use puya_sol.Awst.WType.Equivalence.Memory.{
  Memory, Lives, LivesAll, LivesFields, size, size_types, size_fields, at-addr, Open, Sound,
  Decides, Extend, Above,
}

pub basic_injective : (a b : BasicType) → basic a ≡ basic b → a ≡ b
basic_injective a b h = cc

pub and_parts : (a b : Bool) → (a && b) ≡ true → (a ≡ true) × (b ≡ true)
and_parts a b h = ground arith

pub and_true : (a b : Bool) → a ≡ true → b ≡ true → (a && b) ≡ true
and_true a b h k = ground arith

pub and_iff :
    {P Q : Type 0} (a b : Bool) → (a ≡ true) ↔ P → (b ≡ true) ↔ Q → ((a && b) ≡ true) ↔ (P × Q)
and_iff a b p q =
    (λ h. let (x, y) = and_parts a b h in (p.0 x, q.0 y), λ (x, y). and_true a b (p.1 x) (q.1 y))

pub types_size-canon : (ts : WTypes) → types_size (canon_types ts) ≡ types_size ts
unfolding canon
types_size-canon nil = refl
types_size-canon (cons t ts) = ap suc (types_size-canon ts)

pub types_size_eq :
    (ts us : WTypes) → canon_types ts ≡ canon_types us → types_size ts ≡ types_size us
types_size_eq ts us h =
    sym (types_size-canon ts) ∙ (ap (λ ws. types_size ws) h ∙ types_size-canon us)

pub fields_size-canon : (fs : StructFields) → fields_size (canon_fields fs) ≡ fields_size fs
unfolding canon
fields_size-canon no_fields = refl
fields_size-canon (field n t fs) = ap suc (fields_size-canon fs)

pub fields_size_eq :
    (fs gs : StructFields) → canon_fields fs ≡ canon_fields gs → fields_size fs ≡ fields_size gs
fields_size_eq fs gs h =
    sym (fields_size-canon fs) ∙ (ap (λ ws. fields_size ws) h ∙ fields_size-canon gs)

module _ (mem : Memory) where
  pub Above-mono : (o : Open) (m n : ℕ) → m ≤ n → Above mem o n → Above mem o m
  Above-mono o m n h above p op = let lt = above p op in omega arith

  pub Above-child :
      (o : Open) (l : WType) (b n : ℕ)
      → Lives mem l
      → n < size l
      → Above mem o (size l)
      → Above mem (Extend o (addr l, b)) n
  Above-child o l b n live lt above p (inl op) = let h = above p op in omega arith
  Above-child o l b n live lt above p (inr e) = rw (e, at-addr mem l live) lt

  pub Decides-map :
      (o : Open) {G H : Type 0} (ans : Answer)
      → (G → H)
      → (H → G)
      → Decides mem o G ans
      → Decides mem o H ans
  Decides-map o ans f g d = (λ e. let (x, s) = d.0 e in (f x, s), λ h. d.1 (g h))

  pub test-Decides :
      (o : Open) {G : Type 0} (b : Bool) (s : Seen)
      → Sound mem o s
      → (b ≡ true) ↔ G
      → Decides mem o G (b, s)
  test-Decides o b s h e = (λ t. (e.0 t, h), e.1)

  pub and_then-Decides :
      (o : Open) {G H : Type 0} (ans : Answer) (k : Seen → Answer)
      → Decides mem o G ans
      → ((s : Seen) → G → Sound mem o s → Decides mem o H (k s))
      → Decides mem o (G × H) (and_then ans k)
  and_then-Decides o (false, s) k d rec = (λ e. cc, λ g. cc (d.1 g.0))
  and_then-Decides o (true, s) k d rec =
      let (g, h) = d.0 refl in
      let r = rec s g h in (λ e. let (x, h') = r.0 e in ((g, x), h'), λ gh. r.1 gh.1)

  -- The result that the induction is about.
  abbrev pub Correct : WType → WType → Seen → Type 1
  Correct l r seen =
      (o : Open)
      → Above mem o (size l)
      → Lives mem l
      → Lives mem r
      → Sound mem o seen
      → Decides mem o (canon l ≡ canon r) (equivalent_impl l r seen)

  abbrev pub ItemsCorrect : WTypes → WTypes → Seen → Type 1
  ItemsCorrect ts us seen =
      (o : Open)
      → Above mem o (size_types ts)
      → LivesAll mem ts
      → LivesAll mem us
      → Sound mem o seen
      → types_size ts ≡ types_size us
      → Decides mem o (canon_types ts ≡ canon_types us) (items_equal ts us seen)

  abbrev pub FieldsCorrect : StructFields → StructFields → Seen → Type 1
  FieldsCorrect fs gs seen =
      (o : Open)
      → Above mem o (size_fields fs)
      → LivesFields mem fs
      → LivesFields mem gs
      → Sound mem o seen
      → fields_size fs ≡ fields_size gs
      → Decides mem o (canon_fields fs ≡ canon_fields gs) (fields_equal fs gs seen)
