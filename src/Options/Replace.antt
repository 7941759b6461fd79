-- ===== src/Options/Replace.antt =====
-- `parse_replace` and `is_digit` of unit/test_common.c: the operand of `--test-replace` is a number
-- of keys, a colon, and the indexes of the keys to replace. `store` keeps the indexes, which are a
-- result here. A text without a colon and a field that does not fit in `tmp_str` are `fault`.
pub mod Indexes
use pmix_tests.Base.{
  ℕ, Bool, true, ◌&&◌, Option, none, some, List, [], ◌∷◌, ◌++◌, ltb, ◌==◌, if◌then◌else◌, length,
  Run, ok, fault, ◌>>=◌,
}
use pmix_tests.Base.Int.{ℤ}
use pmix_tests.Base.Text.{CString}
use pmix_tests.Options.Numbers.{is_digit_code, atoi}
use pmix_tests.Options.Ranges.{split_at, suc_int, distance}

unfoldable pub is_digit : CString → Bool
is_digit [] = true
is_digit (c ∷ cs) = is_digit_code c && is_digit cs

-- The texts between the commas, empty ones too; `acc` is the start of the first of them.
unfoldable pub fields : CString → CString → List CString
fields acc [] = acc ∷ []
fields acc (c ∷ cs) =
    let cut = fields [] cs in
    let grow = fields (acc ++ c ∷ []) cs in if c == 44 then acc ∷ cut else grow

-- `tmp_str` has room for 31 characters.
abbrev fits : CString → Bool
fits s = ltb (length s) 32

-- `atoi(tmp_str) + 1 > cnt`
abbrev pub too_large : ℤ → ℤ → Bool
too_large val cnt = ltb 0 (distance cnt (suc_int val))

-- One field: is it refused?
abbrev pub bad_field : ℤ → CString → Bool
bad_field cnt field = if is_digit field then too_large (atoi field) cnt else true

-- The loop over the fields. A last field that is empty is refused; an empty field before a comma
-- counts as 0.
unfoldable pub replace_loop : Bool → ℤ → List CString → List ℤ → Run (ℕ × List ℤ)
replace_loop store cnt [] keys = ok (0, keys)
replace_loop store cnt ([] ∷ []) keys = ok (1, keys)
replace_loop store cnt (field ∷ more) keys =
    let next = replace_loop store cnt more (if store then keys ++ atoi field ∷ [] else keys) in
    if fits field then (if bad_field cnt field then ok (1, keys) else next) else fault

-- What stands before and after the colon.
unfoldable pub replace_parts : Bool → Option (CString × CString) → Run (ℤ × ℕ × List ℤ)
replace_parts store none = fault
replace_parts store (some (before, after)) =
    if fits before
    then (do
      (ret, keys) ← replace_loop store (atoi before) (fields [] after) []
      ok (atoi before, ret, keys))
    else fault

-- The count `*key_num`, the result, and the indexes kept.
unfoldable pub parse_replace : CString → Bool → Run (ℤ × ℕ × List ℤ)
parse_replace replace_param store = replace_parts store (split_at 58 replace_param)
