-- ===== src/Clients/Replace.antt =====
-- unit/test_replace.c: values that are put, made known, and replaced by others. `key_replace` is the
-- list of the indexes that `parse_replace` keeps.
pub mod Passes
use pmix_tests.Base.{
  ℕ, Bool, true, false, ◌||◌, List, [], ◌∷◌, ◌++◌, Run, ok, fault, out_of_fuel, if◌then◌else◌,
}
use pmix_tests.Base.Int.{ℤ, pos, negsuc, eqb}
use pmix_tests.Base.Text.{CString, codes}
use pmix_tests.Base.Status.{Status, success}
use pmix_tests.Published.{Proc}
use pmix_tests.Options.Numbers.{print_int}
use pmix_tests.Options.Replace.{parse_replace}
use pmix_tests.Clients.{
  string, global, Step, next, crashes, Body, ◌>>=◌, ◌>>◌, Library, Floats, same_key, done, put,
}
use pmix_tests.Clients.JobFence.{name_of, rounds}
use pmix_tests.Clients.Texts.{print_into, store_texts, commit_fence, get_texts}

unfoldable pub key_is_replace : List ℤ → ℤ → Bool
key_is_replace [] key_idx = false
key_is_replace (item ∷ items) key_idx = eqb item key_idx || key_is_replace items key_idx

-- "test_replace:%s:%d:%d"
abbrev pub first_text : Proc → ℤ → CString
first_text self i = codes "test_replace:" ++ (name_of self ++ b':' ∷ print_int i)

abbrev pub replaced_text : Proc → ℤ → CString
replaced_text self i = first_text self i ++ codes ": replaced key"

-- The text that is read in the end.
abbrev pub last_text : Proc → List ℤ → ℕ → CString
last_text self keys i =
    if key_is_replace keys (pos i) then replaced_text self (pos i) else first_text self (pos i)

module _ {L : Type 0} where
  abbrev pub parsed : Run (ℤ × ℕ × List ℤ) → Body L (ℤ × List ℤ)
  parsed (ok (key_cnt, ret, keys)) l = (next (key_cnt, keys), l)
  parsed _ l = (crashes, l)

module _ {L F : Type 0} (lib : Library L F) (fl : Floats F) (max_nslen : ℕ) (self : Proc) where
  -- The loop over the indexes.
  unfoldable pub put_replaced : List ℤ → Body L (Unit {0})
  put_replaced [] = done tt
  put_replaced (item ∷ items) = do
    sval ← print_into max_nslen (replaced_text self item)
    put lib fl global (same_key item) (string sval)
    put_replaced items

  -- The body, once the operand has been read; the result of `parse_replace` is not used.
  unfoldable pub replace_keys : ℕ → List ℤ → Body L Status
  replace_keys key_cnt keys = do
    store_texts max_nslen (λ key sval. put lib fl global key (string sval))
        (λ i. first_text self (pos i)) key_cnt 0
    commit_fence lib fl max_nslen self
    put_replaced keys
    commit_fence lib fl max_nslen self
    get_texts lib fl max_nslen self (last_text self keys) key_cnt 0
    done success

  unfoldable pub test_replace : CString → Body L Status
  test_replace key_replace = do
    (key_cnt, keys) ← parsed (parse_replace key_replace true)
    replace_keys (rounds key_cnt) keys
