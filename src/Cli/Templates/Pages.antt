-- ===== src/Cli/Templates/Pages.antt =====
-- The pages of a child's approval program (src/cli/AwstPostPasses.cpp).
use puya_sol.Prelude.{
  ℕ, zero, suc, ◌+◌, ◌-◌, ◌*◌, ◌/◌, ◌%◌, ◌<◌, ◌≤◌, ◌≡◌, refl, sym, ap, ap₂, ◌∙◌, true, false, List,
  [], ◌∷◌, ◌++◌, String, ◌<>◌, if◌then◌else◌, ltb, leb, eqb, eqb_iff, length, take, drop, arith,
  all_below, all_below-at, inl, inr, Bool-cases, All,
}
use puya_sol.Json.Base85.{char_at}
use puya_sol.Cli.Templates.{
  hex_characters, to_hex, Outcome, made, ChildTemplate, nonempty, with_programs, split_pages,
  child_template, program_page_bytes, approval_bytes,
}

-- The value of a hexadecimal character.
abbrev nibble : ℕ → ℕ
nibble c = if leb 97 c then c - 87 else c - 48

-- Reading hexadecimal text back.
abbrev pub from_hex : List ℕ → List ℕ
from_hex [] = []
from_hex (a ∷ []) = []
from_hex (a ∷ b ∷ rest) = (nibble a * 16 + nibble b) ∷ from_hex rest

sixteen : all_below 16 (λ d. eqb (nibble (char_at hex_characters d)) d) ≡ true
sixteen = refl

nibble-char_at : (d : ℕ) → d < 16 → nibble (char_at hex_characters d) ≡ d
nibble-char_at d h =
    (eqb_iff _ d).0 (all_below-at 16 (λ d. eqb (nibble (char_at hex_characters d)) d) d sixteen h)

from_hex-to_hex : (bs : List ℕ) → All (λ b. b < 256) bs → from_hex (to_hex bs) ≡ bs
unfolding to_hex
from_hex-to_hex [] h = refl
from_hex-to_hex (b ∷ bs) h =
    ap₂ (λ x xs. x ∷ xs)
      (ap₂ (λ x y. x * 16 + y) (nibble-char_at (b / 16) (omega arith))
          (nibble-char_at (b % 16) (omega arith))
        ∙ omega arith)
      (from_hex-to_hex bs h.1)

length-to_hex : (bs : List ℕ) → length (to_hex bs) ≡ length bs * 2
unfolding to_hex
length-to_hex [] = refl
length-to_hex (b ∷ bs) = omega (arith, length-to_hex bs)

take-drop : (n : ℕ) (xs : List ℕ) → take n xs ++ drop n xs ≡ xs
take-drop zero xs = refl
take-drop (suc n) [] = refl
take-drop (suc n) (x ∷ xs) = ap (λ l. x ∷ l) (take-drop n xs)

length-take-le : (n : ℕ) (xs : List ℕ) → length (take n xs) ≤ n
length-take-le zero xs = omega arith
length-take-le (suc n) [] = omega arith
length-take-le (suc n) (x ∷ xs) = omega (arith, length-take-le n xs)

length-drop : (n : ℕ) (xs : List ℕ) → length (drop n xs) ≡ length xs - n
length-drop zero xs = omega arith
length-drop (suc n) [] = omega arith
length-drop (suc n) (x ∷ xs) = omega (arith, length-drop n xs)

drop-short : (n : ℕ) (xs : List ℕ) → ltb n (length xs) ≡ false → drop n xs ≡ []
drop-short zero [] h = refl
drop-short zero (x ∷ xs) h = absurd (ground arith)
drop-short (suc n) [] h = refl
drop-short (suc n) (x ∷ xs) h = drop-short n xs (ground arith)

-- The template of one child: its pages make up the approval program, and each fits a page.
pub record IsTemplate (approval clear : List ℕ) (t : ChildTemplate) : Type 0 where
  pub program : from_hex (t.page0 ++ t.page1) ≡ approval
  pub first_fits : length t.page0 ≤ program_page_bytes * 2
  pub second_fits : length t.page1 ≤ program_page_bytes * 2
  pub cleared : from_hex t.clear ≡ clear

-- The second page, with the test on the length.
second : (n : ℕ) (xs : List ℕ) → (if ltb n (length xs) then drop n xs else []) ≡ drop n xs
second n xs = elim (Bool-cases (ltb n (length xs))) [
  | inl p ↦ rw p refl
  | inr p ↦ rw p (sym (drop-short n xs p))
]

not_above : (n m : ℕ) → m ≤ n → ltb n m ≡ false
not_above n m h = ground arith

two_pages : List ℕ → List ℕ → ChildTemplate
two_pages approval clear = record {
  page0 = take (program_page_bytes * 2) approval;
  page1 = drop (program_page_bytes * 2) approval;
  clear = clear;
}

split_pages-two_pages :
    (child : String) (approval clear : List ℕ)
    → length approval ≤ program_page_bytes * 2 + program_page_bytes * 2
    → split_pages child approval clear ≡ made (two_pages approval clear)
unfolding split_pages two_pages
split_pages-two_pages child approval clear h =
    let n = program_page_bytes * 2 in
    let a : ltb n (length (take n approval)) ≡ false =
      not_above n (length (take n approval)) (length-take-le n approval) in
    let b : ltb n (length (drop n approval)) ≡ false =
      not_above n (length (drop n approval)) (omega (arith, length-drop n approval)) in
    rw (second n approval, a, b) refl

two_pages-IsTemplate :
    (approval clear : List ℕ)
    → All (λ b. b < 256) approval
    → All (λ b. b < 256) clear
    → length approval ≤ approval_bytes
    → IsTemplate approval clear (two_pages (to_hex approval) (to_hex clear))
unfolding two_pages
two_pages-IsTemplate approval clear ha hc h =
    let n = program_page_bytes * 2 in
    record {
      program = ap from_hex (take-drop n (to_hex approval)) ∙ from_hex-to_hex approval ha;
      first_fits = length-take-le n (to_hex approval);
      second_fits = omega (arith, length-drop n (to_hex approval), length-to_hex approval);
      cleared = from_hex-to_hex clear hc;
    }

module _ (read : String → ℕ → Outcome (List ℕ)) (path : String → String) (child : String) where
  -- For a reader that gives no more bytes than it is asked for, and two programs that it reads and
  -- that are not empty, the template of a child is made: no page is too long, the two pages are
  -- the approval program in hexadecimal, and the third text is the clear program.
  pub child_template-IsTemplate :
      (a c : ℕ) (approval clear : List ℕ)
      → ((p : String) (n : ℕ) (bs : List ℕ)
          → read p n ≡ made bs
          → (length bs ≤ n) × All (λ b. b < 256) bs)
      → read (path (child <> ".approval.bin")) approval_bytes ≡ made (a ∷ approval)
      → read (path (child <> ".clear.bin")) program_page_bytes ≡ made (c ∷ clear)
      → (t : ChildTemplate) × (child_template read path child ≡ made t)
        × IsTemplate (a ∷ approval) (c ∷ clear) t
  unfolding child_template with_programs
  child_template-IsTemplate a c approval clear reads ha hc =
      let (la, ba) = reads _ _ (a ∷ approval) ha in
      let (lc, bc) = reads _ _ (c ∷ clear) hc in
      (
        two_pages (to_hex (a ∷ approval)) (to_hex (c ∷ clear)),
        ap₂
              (λ x y.
                with_programs child (nonempty (path (child <> ".approval.bin")) x)
                  (nonempty (path (child <> ".clear.bin")) y))
              ha hc
            ∙ (split_pages-two_pages child (to_hex (a ∷ approval)) (to_hex (c ∷ clear))
                (omega (arith, length-to_hex (a ∷ approval)))),
        two_pages-IsTemplate (a ∷ approval) (c ∷ clear) ba bc la,
      )
