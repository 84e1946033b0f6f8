-- ===== src/Json/Value/Outcome.antt =====
-- How assignments keep the keys of an object apart, and when a run of them follows a null pointer.
use puya_sol.Prelude.{
  Bool, true, false, ◌&&◌, Option, none, some, List, [], ◌∷◌, String, ◌≡◌, refl, sym, ◌||◌,
  Bool-cases, inl, inr, arith, ◌==◌, string_eq, ==_iff, ℤ,
}
use puya_sol.Json.Value.{
  Json, Items, no_items, Members, no_members, member, assign, erase, assign_all, try_assign_all,
  has_key, IsDocument, AllDocuments, AllKeyed, as_object, text_or_null, number_or_null,
  nonempty_or_null, text_items, push, as_array, as_implicit_object,
}

differ_sym : (j k : String) → (j == k) ≡ false → (k == j) ≡ false
differ_sym j k h = elim (Bool-cases (k == j)) [
  | inl p ↦ let q : (j == k) ≡ true = (==_iff j k).1 (sym ((==_iff k j).0 p)) in absurd (cc)
  | inr p ↦ p
]

or-false : (a b : Bool) → (a || b) ≡ false → (a ≡ false) × (b ≡ false)
or-false a b h = ground arith

-- A key other than the assigned one is there afterwards when it was there before.
has_key-assign :
    (k j : String) (v : Json) (ms : Members)
    → (j == k) ≡ false
    → has_key k ms ≡ false
    → has_key k (assign j v ms) ≡ false
unfolding has_key assign
has_key-assign k j v no_members h e = rw h refl
has_key-assign k j v (member i w rest) h e = elim (Bool-cases (i == j)) [
  | inl p ↦ rw p e
  | inr p ↦
      let (q, r) = or-false (i == k) (has_key k rest) e in
      rw p (rw q (has_key-assign k j v rest h r))
]

pub assign-AllKeyed :
    (k : String) (v : Json) (ms : Members) → IsDocument v → AllKeyed ms → AllKeyed (assign k v ms)
unfolding AllKeyed IsDocument AllDocuments assign has_key
assign-AllKeyed k v no_members h m = (refl, h, tt)
assign-AllKeyed k v (member j w rest) h m = elim (Bool-cases (j == k)) [
  | inl p ↦ rw p (m.0, h, m.2)
  | inr p ↦
      rw p (has_key-assign j k v rest (differ_sym j k p) m.0, m.1, assign-AllKeyed k v rest h m.2)
]

has_key-erase :
    (k j : String) (ms : Members) → has_key k ms ≡ false → has_key k (erase j ms) ≡ false
unfolding has_key erase
has_key-erase k j no_members e = refl
has_key-erase k j (member i w rest) e =
    let (q, r) = or-false (i == k) (has_key k rest) e in
    elim (Bool-cases (i == j)) [ inl p ↦ rw p r | inr p ↦ rw p (rw q (has_key-erase k j rest r)) ]

pub erase-AllKeyed : (k : String) (ms : Members) → AllKeyed ms → AllKeyed (erase k ms)
unfolding AllKeyed IsDocument AllDocuments erase has_key
erase-AllKeyed k no_members m = tt
erase-AllKeyed k (member j w rest) m = elim (Bool-cases (j == k)) [
  | inl p ↦ rw p m.2
  | inr p ↦ rw p (has_key-erase j k rest m.0, m.1, erase-AllKeyed k rest m.2)
]

-- The answer is a document exactly when the flag is set.
pub data Outcome : Bool → Option Json → Type 0 where
  failed : Outcome false none
  document : {j : Json} → IsDocument j → Outcome true (some j)

-- The same for a run of assignments to any object.
pub record Outcomes (b : Bool) (es : List (String × Option Json)) : Type 0 where
  pub made : (ms : Members) → AllKeyed ms → Outcome b (as_object (try_assign_all ms es))

pub end : Outcomes true []
unfolding IsDocument try_assign_all
end = record { made = λ ms m. document m }

-- One more assignment, whose right side may fail.
pub part :
    {k : String} {a b : Bool} {v : Option Json} {es : List (String × Option Json)}
    → Outcome a v
    → Outcomes b es
    → Outcomes (a && b) ((k, v) ∷ es)
unfolding try_assign_all
part failed h = record { made = λ ms m. failed }
part {k = k} {v = some j} (document d) h = record {
  made = λ ms m. h.made (assign k j ms) (assign-AllKeyed k j ms d m);
}

-- One more assignment that never fails.
pub given :
    {k : String} {b : Bool} {j : Json} {es : List (String × Option Json)}
    → IsDocument j
    → Outcomes b es
    → Outcomes b ((k, some j) ∷ es)
unfolding try_assign_all
given {k = k} {j = j} d h = record {
  made = λ ms m. h.made (assign k j ms) (assign-AllKeyed k j ms d m);
}

-- A last assignment, whose right side may fail.
pub last : {k : String} {a : Bool} {v : Option Json} → Outcome a v → Outcomes a ((k, v) ∷ [])
last failed = part failed end
last (document d) = part (document d) end

-- The one assignment that may fail, in front of others.
pub only :
    {k : String} {a : Bool} {v : Option Json} {es : List (String × Option Json)}
    → Outcome a v
    → Outcomes true es
    → Outcomes a ((k, v) ∷ es)
only failed h = part failed h
only (document d) h = part (document d) h

-- The same for the items of an array.
pub data ItemsOutcome : Bool → Option Items → Type 0 where
  no_array : ItemsOutcome false none
  documents : {xs : Items} → AllDocuments xs → ItemsOutcome true (some xs)

pub no_more : ItemsOutcome true (some no_items)
unfolding IsDocument
no_more = documents tt

pub pushed :
    {a b : Bool} {v : Option Json} {xs : Option Items}
    → Outcome a v
    → ItemsOutcome b xs
    → ItemsOutcome (a && b) (push v xs)
unfolding IsDocument
pushed failed h = no_array
pushed (document d) no_array = no_array
pushed (document d) (documents h) = documents (d, h)

pub pair :
    {a b : Bool} {v w : Option Json}
    → Outcome a v
    → Outcome b w
    → ItemsOutcome (a && b) (push v (push w (some no_items)))
pair failed o = no_array
pair (document d) failed = no_array
pair (document d) (document e) = pushed (document d) (pushed (document e) no_more)

pub array-Outcome : {b : Bool} {xs : Option Items} → ItemsOutcome b xs → Outcome b (as_array xs)
unfolding IsDocument
array-Outcome no_array = failed
array-Outcome (documents h) = document h

-- The same for the members of an object.
pub data MembersOutcome : Bool → Option Members → Type 0 where
  no_object : MembersOutcome false none
  keyed : {ms : Members} → AllKeyed ms → MembersOutcome true (some ms)

pub object-Outcome :
    {b : Bool} {ms : Option Members} → MembersOutcome b ms → Outcome b (as_object ms)
unfolding IsDocument
object-Outcome no_object = failed
object-Outcome (keyed h) = document h

pub implicit-Outcome :
    {b : Bool} {ms : Option Members} → MembersOutcome b ms → Outcome b (as_implicit_object ms)
unfolding IsDocument
implicit-Outcome no_object = failed
implicit-Outcome {ms = some no_members} (keyed h) = document tt
implicit-Outcome {ms = some (member k v rest)} (keyed h) = document h

pub text_or_null-IsDocument : (s : Option String) → IsDocument (text_or_null s)
unfolding IsDocument
text_or_null-IsDocument none = tt
text_or_null-IsDocument (some s) = tt

pub number_or_null-IsDocument : (n : Option ℤ) → IsDocument (number_or_null n)
unfolding IsDocument
number_or_null-IsDocument none = tt
number_or_null-IsDocument (some n) = tt

pub nonempty_or_null-IsDocument : (s : String) → IsDocument (nonempty_or_null s)
unfolding IsDocument
nonempty_or_null-IsDocument s = elim (Bool-cases (s == "")) [ inl p ↦ rw p tt | inr p ↦ rw p tt ]

pub text_items-AllDocuments : (ss : List String) → AllDocuments (text_items ss)
unfolding IsDocument
text_items-AllDocuments [] = tt
text_items-AllDocuments (s ∷ rest) = (tt, text_items-AllDocuments rest)

-- Assignments that never fail.
unfoldable pub Documents : List (String × Json) → Type 0
unfolding IsDocument
Documents [] = Unit
Documents ((k, j) ∷ rest) = IsDocument j × Documents rest

pub assign_all-AllKeyed :
    (ms : Members) (es : List (String × Json))
    → AllKeyed ms
    → Documents es
    → AllKeyed (assign_all ms es)
unfolding Documents assign_all IsDocument
assign_all-AllKeyed ms [] m h = m
assign_all-AllKeyed ms ((k, j) ∷ rest) m h =
    assign_all-AllKeyed (assign k j ms) rest (assign-AllKeyed k j ms h.0 m) h.1
