-- ===== src/Storage/SlotWord/Roundtrip.antt =====
-- Packing and unpacking (src/builder/storage/SlotWordCodec.cpp): numbers.
use mathlib.Core.List.{append-nil}
use puya_sol.Prelude.{
  ℕ, ◌+◌, ◌-◌, ◌/◌, ◌<◌, ◌≤◌, ◌^◌, ◌≡◌, sym, ap, ◌∙◌, inl, inr, none, some, List, [], ◌++◌, pos,
  sub_ℕ, length, replicate, arith, Bool-cases, ltb, eqb, nat_eq, eqb_iff,
}
use puya_sol.Awst.Location.{SourceLocation}
use puya_sol.Awst.Expr.{Expression}
use puya_sol.Awst.Make.Bytes.{make_extract, make_left_pad}
use puya_sol.Storage.SlotWord.{pack_uint64, unpack_uint64}
use puya_sol.Avm.Digits.{be, length-be, length-replicate, num-be, be-append, be_wide}
use puya_sol.Avm.Machine.{Avm, uint, byte_string}

pub sub_ℕ-le : (a b : ℕ) → b ≤ a → sub_ℕ a b ≡ pos (a - b)
sub_ℕ-le a b h = ground arith

module _ (m : Avm) (loc : SourceLocation) where
  -- `makeLeftPad` puts zeros in front.
  pub eval-make_left_pad :
      (e : Expression) (k : ℕ) (bs : List ℕ)
      → m.eval e ≡ some (byte_string bs)
      → k ≤ 32
      → length bs ≤ 64
      → m.eval (make_left_pad e k loc) ≡ some (byte_string (replicate k 0 ++ bs))
  unfolding make_left_pad
  eval-make_left_pad e k bs h hk hb =
      m.concat _ e loc (replicate k 0) bs (m.bzero k loc (omega arith)) h
        (omega (arith, length-replicate k 0))

  -- The low `k` bytes of a byte string.
  pub eval-extract_tail :
      (e : Expression) (total k : ℕ) (xs ys : List ℕ)
      → m.eval e ≡ some (byte_string (xs ++ ys))
      → length xs ≡ total - k
      → length ys ≡ k
      → 0 < k
      → k ≤ total
      → total < 256
      → m.eval (make_extract e (sub_ℕ total k) (pos k) loc) ≡ some (byte_string ys)
  eval-extract_tail e total k xs ys h hx hy h0 hk ht =
      let law =
        m.extract e loc xs ys [] (rw (append-nil ys) h) (omega arith) (omega arith) (omega arith) in
      rw (sub_ℕ-le total k hk) (rw (hx, hy) at law)

  pub eval-pack_uint64 :
      (e : Expression) (n size : ℕ)
      → m.eval e ≡ some (uint n)
      → n < 2 ^ 64
      → n < 256 ^ size
      → 0 < size
      → size ≤ 32
      → m.eval (pack_uint64 e size loc) ≡ some (byte_string (be size n))
  unfolding pack_uint64
  eval-pack_uint64 e n size h h64 hn h0 h32 =
      let itob = m.itob e loc n h h64 in
      elim (Bool-cases (eqb size 8)) [
        | inl eq ↦ rw eq (rw ((eqb_iff size 8).0 eq) itob)
        | inr ne ↦ rw ne (elim (Bool-cases (ltb 8 size)) [
          | inl wide ↦ rw wide (
              eval-make_left_pad _ (size - 8) _ itob (omega arith) (omega (arith, length-be 8 n))
              ∙ ap (λ l. some (byte_string l))
                  (sym (be_wide (size - 8) 8 n (omega arith))
                    ∙ ap (λ k. be k n) (add_back size (ground arith))))
          | inr narrow ↦ rw narrow (
              eval-extract_tail _ 8 size (be (8 - size) (n / 256 ^ size)) (be size n)
                (itob
                  ∙ ap (λ l. some (byte_string l))
                      (ap (λ k. be k n) (split_up size (ground arith))
                        ∙ be-append (8 - size) size n))
                (length-be _ _) (length-be _ _) h0 (ground arith) (omega arith))
        ])
      ]
    where
      add_back : (size : ℕ) → 8 < size → size - 8 + 8 ≡ size
      add_back size h = omega arith

      split_up : (size : ℕ) → size ≤ 8 → 8 ≡ 8 - size + size
      split_up size h = omega arith

  pub eval-unpack_uint64 :
      (e : Expression) (n size : ℕ)
      → m.eval e ≡ some (byte_string (be size n))
      → n < 2 ^ 64
      → n < 256 ^ size
      → size ≤ 32
      → m.eval (unpack_uint64 e size loc) ≡ some (uint n)
  unfolding unpack_uint64
  eval-unpack_uint64 e n size h h64 hn h32 = elim (Bool-cases (ltb 8 size)) [
    | inl wide ↦ rw wide (
        m.btoi _ loc none (be 8 n)
          (eval-extract_tail e size 8 (replicate (size - 8) 0) (be 8 n)
            (h
              ∙ ap (λ l. some (byte_string l))
                  (ap (λ k. be k n) (add_back size (ground arith))
                    ∙ be_wide (size - 8) 8 n (omega arith)))
            (length-replicate _ _) (length-be _ _) (omega arith) (ground arith) (omega arith))
          (omega (arith, length-be 8 n))
        ∙ ap (λ k. some (uint k)) (num-be 8 n (omega arith)))
    | inr narrow ↦ rw narrow (
        m.btoi e loc none (be size n) h (ground (arith, length-be size n))
        ∙ ap (λ k. some (uint k)) (num-be size n hn))
  ]
    where
      add_back : (size : ℕ) → 8 < size → size ≡ size - 8 + 8
      add_back size h = omega arith
