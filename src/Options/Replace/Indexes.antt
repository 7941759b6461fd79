-- ===== src/Options/Replace/Indexes.antt =====
-- `parse_replace` of unit/test_common.c on texts of the form N:k0,k1,..., which the help of the
-- program describes.
use mathlib.Core.List.{append_assoc, append-nil}
use pmix_tests.Base.{
  ℕ, zero, suc, ◌+◌, ◌%◌, ◌/◌, ◌^◌, ◌≤◌, ◌<◌, ◌≡◌, refl, sym, ap, ◌∙◌, true, false, some, List, [],
  ◌∷◌, ◌++◌, map, arith, ltb, ◌==◌, length, All, ok, Bool-cases, inl, inr,
}
use pmix_tests.Base.Int.{ℤ, pos}
use pmix_tests.Base.Text.{CString}
use pmix_tests.Options.Numbers.{
  is_digit_code, digits, print_int, atoi, strtol-print_int, to_int_small, IsNumber,
  print_int-IsNumber,
}
use pmix_tests.Options.Ranges.{split_at}
use pmix_tests.Options.Replace.{
  is_digit, fields, fits, bad_field, replace_loop, replace_parts, parse_replace,
}

abbrev pub Digits : CString → Type 0
Digits = All (λ c. (48 ≤ c) × (c ≤ 57))

digits-Digits :
    (fuel n : ℕ) (rest : CString)
    → Digits rest
    → Digits (digits fuel n rest) × (length (digits fuel n rest) ≤ fuel + length rest)
unfolding digits
digits-Digits zero n rest h = (h, omega arith)
digits-Digits (suc fuel) n rest h = elim (Bool-cases (ltb n 10)) [
  | inl e ↦ rw e (((omega arith, omega arith), h), omega arith)
  | inr e ↦
      let (all, short) =
        digits-Digits fuel (n / 10) ((48 + n % 10) ∷ rest) ((omega arith, omega arith), h) in
      rw e (all, omega arith)
]

pub print-Digits : (n : ℕ) → Digits (print_int (pos n)) × (length (print_int (pos n)) ≤ 10)
unfolding print_int
print-Digits n = digits-Digits 10 n [] tt

Digits-is_digit : (s : CString) → Digits s → is_digit s ≡ true
unfolding is_digit is_digit_code
Digits-is_digit [] h = refl
Digits-is_digit (c ∷ cs) h = ground (arith, Digits-is_digit cs h.1)

-- The first colon, and the next comma, are those after the digits.
split_at-Digits : (s rest : CString) → Digits s → split_at 58 (s ++ 58 ∷ rest) ≡ some (s, rest)
unfolding split_at
split_at-Digits [] rest h = refl
split_at-Digits (c ∷ cs) rest h =
    let differ : (c == 58) ≡ false = ground (arith, h.0.1) in
    rw (differ, split_at-Digits cs rest h.1) refl

fields-last : (acc s : CString) → Digits s → fields acc s ≡ (acc ++ s) ∷ []
unfolding fields
fields-last acc [] h = rw (append-nil acc) refl
fields-last acc (c ∷ cs) h =
    let differ : (c == 44) ≡ false = ground (arith, h.0.0) in
    rw (differ, fields-last (acc ++ c ∷ []) cs h.1, append_assoc acc (c ∷ []) cs) refl

fields-comma :
    (acc s rest : CString) → Digits s → fields acc (s ++ 44 ∷ rest) ≡ (acc ++ s) ∷ fields [] rest
unfolding fields
fields-comma acc [] rest h = rw (append-nil acc) refl
fields-comma acc (c ∷ cs) rest h =
    let differ : (c == 44) ≡ false = ground (arith, h.0.0) in
    rw (differ, fields-comma (acc ++ c ∷ []) cs rest h.1, append_assoc acc (c ∷ []) cs) refl

-- The indexes, printed with commas between them.
unfoldable pub print_keys : ℕ → List ℕ → CString
print_keys k [] = print_int (pos k)
print_keys k (l ∷ ls) = print_int (pos k) ++ 44 ∷ print_keys l ls

fields-print_keys :
    (k : ℕ) (ks : List ℕ) → fields [] (print_keys k ks) ≡ map (λ i. print_int (pos i)) (k ∷ ks)
unfolding print_keys
fields-print_keys k [] = fields-last [] (print_int (pos k)) (print-Digits k).0
fields-print_keys k (l ∷ ls) =
    fields-comma [] (print_int (pos k)) (print_keys l ls) (print-Digits k).0
    ∙ ap (λ fs. print_int (pos k) ∷ fs) (fields-print_keys l ls)

atoi-print_int : (n : ℕ) → n < 2 ^ 31 → atoi (print_int (pos n)) ≡ pos n
unfolding atoi
atoi-print_int n h = rw (strtol-print_int n h) (to_int_small n h)

replace_loop-field :
    (n : ℕ) (s : CString) (more : List CString) (kept : List ℤ)
    → IsNumber s
    → fits s ≡ true
    → bad_field (pos n) s ≡ false
    → replace_loop true (pos n) (s ∷ more) kept
      ≡ replace_loop true (pos n) more (kept ++ atoi s ∷ [])
unfolding replace_loop
replace_loop-field n [] more kept (c, cs, e, lo, hi) f b = cc
replace_loop-field n (x ∷ xs) more kept h f b = rw (f, b) refl

index_fits : (k : ℕ) → fits (print_int (pos k)) ≡ true
index_fits k = ground (arith, (print-Digits k).1)

index_good : (n k : ℕ) → n < 2 ^ 31 → k < n → bad_field (pos n) (print_int (pos k)) ≡ false
index_good n k h lt =
    rw (Digits-is_digit (print_int (pos k)) (print-Digits k).0, atoi-print_int k (omega arith))
      (ground arith)

replace_loop-print :
    (n : ℕ) (ks : List ℕ) (kept : List ℤ)
    → n < 2 ^ 31
    → All (λ k. k < n) ks
    → replace_loop true (pos n) (map (λ i. print_int (pos i)) ks) kept ≡ ok (0, kept ++ map pos ks)
replace_loop-print n [] kept h a =
    unfold replace_loop in ap (λ l. ok (0, l)) (sym (append-nil kept))
replace_loop-print n (k ∷ ks) kept h a =
    replace_loop-field n (print_int (pos k)) (map (λ i. print_int (pos i)) ks) kept
      (print_int-IsNumber k) (index_fits k) (index_good n k h a.0)
    ∙ rw (atoi-print_int k (omega (arith, a.0))) (
        replace_loop-print n ks (kept ++ pos k ∷ []) h a.1
        ∙ ap (λ l. ok (0, l)) (append_assoc kept (pos k ∷ []) (map pos ks)))

-- A text that gives a number of keys and, behind a colon and with commas between them, some
-- indexes below it, is accepted, and these indexes are kept in their order. The number fits in an
-- `int`.
pub parse_replace-print_keys :
    (n k : ℕ) (ks : List ℕ)
    → n < 2 ^ 31
    → All (λ i. i < n) (k ∷ ks)
    → parse_replace (print_int (pos n) ++ 58 ∷ print_keys k ks) true
      ≡ ok (pos n, 0, map pos (k ∷ ks))
unfolding parse_replace replace_parts
parse_replace-print_keys n k ks h a =
    rw
      (
        split_at-Digits (print_int (pos n)) (print_keys k ks) (print-Digits n).0,
        index_fits n,
        atoi-print_int n h,
        fields-print_keys k ks,
        replace_loop-print n (k ∷ ks) [] h a,
      )
      refl
