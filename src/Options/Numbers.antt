-- ===== src/Options/Numbers.antt =====
-- The numbers in the options of unit/test_common.c and unit/utils.c: `strtol` with base 10, `atoi`,
-- the conversions from `long` to `int` and to a 32-bit unsigned number, and `%d`.
use native.Mathlib.Nat.{pow-suc}
use pmix_tests.Base.{
  ℕ, zero, suc, ◌+◌, ◌-◌, ◌*◌, ◌/◌, ◌%◌, ◌^◌, ◌≤◌, ◌<◌, ◌≡◌, refl, sym, ap, ◌∙◌, Bool, true, false,
  ◌&&◌, ◌||◌, [], ◌∷◌, arith, ltb, leb, ◌==◌, if◌then◌else◌, Bool-cases, inl, inr,
}
use pmix_tests.Base.Int.{ℤ, pos, negsuc}
use pmix_tests.Base.Text.{CString}

unfoldable pub is_digit_code : ℕ → Bool
is_digit_code c = leb 48 c && leb c 57

-- `isspace` in the C locale.
abbrev is_space : ℕ → Bool
is_space c = (c == 32) || (leb 9 c && leb c 13)

-- The value of the digits at the start of a string, after digits of value `acc`.
unfoldable pub read_digits : ℕ → CString → ℕ
read_digits acc [] = acc
read_digits acc (c ∷ cs) =
    let more = read_digits (acc * 10 + (c - 48)) cs in if is_digit_code c then more else acc

-- A `long` of 64 bits: the value is cut off at its ends.
abbrev at_most : ℕ → ℕ → ℕ
at_most top n = if leb n top then n else top

abbrev long_of : Bool → ℕ → ℤ
long_of false n = pos (at_most (2 ^ 63 - 1) n)
long_of true zero = pos 0
long_of true (suc n) = negsuc (at_most (2 ^ 63 - 1) n)

unfoldable pub signed : CString → ℤ
signed [] = pos 0
signed (c ∷ cs) =
    if c == 45
    then long_of true (read_digits 0 cs)
    else if c == 43
    then long_of false (read_digits 0 cs)
    else long_of false (read_digits 0 (c ∷ cs))

-- `strtol(s, NULL, 10)`
unfoldable pub strtol : CString → ℤ
strtol [] = pos 0
strtol (c ∷ cs) = let rest = strtol cs in if is_space c then rest else signed (c ∷ cs)

abbrev pub to_u32 : ℤ → ℕ
to_u32 (pos n) = n % 2 ^ 32
to_u32 (negsuc n) = 2 ^ 32 - 1 - n % 2 ^ 32

unfoldable pub to_int : ℤ → ℤ
to_int z = let u = to_u32 z in if ltb u (2 ^ 31) then pos u else negsuc (2 ^ 32 - 1 - u)

unfoldable pub atoi : CString → ℤ
atoi s = to_int (strtol s)

-- The decimal digits of a number, on fuel, before a text.
unfoldable pub digits : ℕ → ℕ → CString → CString
digits zero n rest = rest
digits (suc fuel) n rest =
    let here = (48 + n % 10) ∷ rest in
    let more = digits fuel (n / 10) here in if ltb n 10 then here else more

-- `%d`: an `int` has ten digits at most.
unfoldable pub print_int : ℤ → CString
print_int (pos n) = digits 10 n []
print_int (negsuc n) = 45 ∷ digits 10 (suc n) []

-- Enough digits are there for every number below 10 to the fuel; they read back as the number.
digits-read :
    (fuel n : ℕ) (rest : CString)
    → n < 10 ^ fuel
    → read_digits 0 (digits fuel n rest) ≡ read_digits n rest
unfolding digits read_digits
digits-read zero n rest h = ap (λ k. read_digits k rest) (omega arith)
digits-read (suc fuel) n rest h = elim (Bool-cases (ltb n 10)) [
  | inl e ↦
      let d : is_digit_code (48 + n % 10) ≡ true = unfold is_digit_code in ground arith in
      rw (e, d) (ap (λ k. read_digits k rest) (ground arith))
  | inr e ↦
      let d : is_digit_code (48 + n % 10) ≡ true = unfold is_digit_code in ground arith in
      let p : 10 ^ suc fuel ≡ 10 ^ fuel * 10 = pow-suc 10 fuel in
      rw (e, digits-read fuel (n / 10) ((48 + n % 10) ∷ rest) (omega arith), d)
        (ap (λ k. read_digits k rest) (omega arith))
]

-- A text that starts with a digit.
abbrev pub IsNumber : CString → Type 0
IsNumber s = (c : ℕ) × (cs : CString) × (s ≡ c ∷ cs) × (48 ≤ c) × (c ≤ 57)

digits_more : (fuel n : ℕ) (rest : CString) → IsNumber rest → IsNumber (digits fuel n rest)
unfolding digits
digits_more zero n rest h = h
digits_more (suc fuel) n rest h = elim (Bool-cases (ltb n 10)) [
  | inl e ↦ rw e (48 + n % 10, rest, refl, omega arith, omega arith)
  | inr e ↦ rw e (
      digits_more fuel (n / 10) ((48 + n % 10) ∷ rest)
        (48 + n % 10, rest, refl, omega arith, omega arith))
]

digits-IsNumber : (fuel n : ℕ) (rest : CString) → IsNumber (digits (suc fuel) n rest)
unfolding digits
digits-IsNumber fuel n rest = elim (Bool-cases (ltb n 10)) [
  | inl e ↦ rw e (48 + n % 10, rest, refl, omega arith, omega arith)
  | inr e ↦ rw e (
      digits_more fuel (n / 10) ((48 + n % 10) ∷ rest)
        (48 + n % 10, rest, refl, omega arith, omega arith))
]

signed_digit :
    (c : ℕ) (cs : CString)
    → 48 ≤ c
    → c ≤ 57
    → strtol (c ∷ cs) ≡ long_of false (read_digits 0 (c ∷ cs))
unfolding strtol signed
signed_digit c cs l h = ground arith

-- What `%d` prints of an `int` that is not negative is read back by `strtol`.
pub strtol-print_int : (n : ℕ) → n < 2 ^ 31 → strtol (print_int (pos n)) ≡ pos n
unfolding print_int
strtol-print_int n h =
    let (c, cs, e, lo, hi) = digits-IsNumber 9 n [] in
    let r : read_digits 0 (digits 10 n []) ≡ n =
      digits-read 10 n [] (omega arith) ∙ unfold read_digits in refl in
    let v : read_digits 0 (c ∷ cs) ≡ n = ap (read_digits 0) (sym e) ∙ r in
    rw e (signed_digit c cs lo hi ∙ ground (arith, v))

pub print_int-IsNumber : (n : ℕ) → IsNumber (print_int (pos n))
unfolding print_int
print_int-IsNumber n = digits-IsNumber 9 n []

-- A value that fits is not changed by the conversions.
pub to_int_small : (n : ℕ) → n < 2 ^ 31 → to_int (pos n) ≡ pos n
unfolding to_int
to_int_small n h = ground arith

pub to_u32_small : (n : ℕ) → n < 2 ^ 31 → to_u32 (pos n) ≡ n
to_u32_small n h = omega arith
