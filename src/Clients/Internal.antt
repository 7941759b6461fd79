-- ===== src/Clients/Internal.antt =====
-- unit/test_internal.c: values that a client stores for itself and reads back.
pub mod Passes
use pmix_tests.Base.{ℕ, List, [], ◌∷◌, ◌++◌}
use pmix_tests.Base.Int.{ℤ, pos}
use pmix_tests.Base.Text.{CString, codes}
use pmix_tests.Base.Status.{Status, success, error, is_success}
use pmix_tests.Published.{Proc}
use pmix_tests.Options.Numbers.{print_int}
use pmix_tests.Options.Params.{Params}
use pmix_tests.Clients.{string, Body, ◌>>=◌, ◌>>◌, Library, Floats, done, return_unless, call}
use pmix_tests.Clients.JobFence.{name_of, rounds}
use pmix_tests.Clients.Texts.{store_texts, commit_fence, get_texts}

-- "test_internal:%s:%d:%d"
abbrev pub internal_text : Proc → ℕ → CString
internal_text self i = codes "test_internal:" ++ (name_of self ++ b':' ∷ print_int (pos i))

module _ {L F : Type 0} (lib : Library L F) (fl : Floats F) (max_nslen : ℕ) (self : Proc) where
  unfoldable pub store_internal : CString → CString → Body L (Unit {0})
  store_internal key sval = do
    rc ← call (lib.store_internal self key (string sval))
    return_unless (is_success rc) error

  unfoldable pub test_internal : Params → Body L Status
  test_internal params = do
    store_texts max_nslen store_internal (internal_text self) (rounds params.test_internal) 0
    commit_fence lib fl max_nslen self
    get_texts lib fl max_nslen self (internal_text self) (rounds params.test_internal) 0
    done success
