-- ===== src/Clients/Texts.antt =====
-- What unit/test_replace.c and unit/test_internal.c have in common: texts printed into an array of
-- PMIX_MAX_NSLEN bytes, `max_nslen`, that are stored under the keys of SET_KEY and read back.
pub mod Kept
use pmix_tests.Base.{ℕ, zero, suc, Bool, true, ltb, List, [], ◌∷◌, length, if◌then◌else◌}
use pmix_tests.Base.Int.{ℤ, pos}
use pmix_tests.Base.Text.{CString}
use pmix_tests.Base.Status.{Status, success, error, is_success}
use pmix_tests.Published.{Proc}
use pmix_tests.Options.Ranges.{wildcard, Participant}
use pmix_tests.Clients.{
  string, Step, next, crashes, Body, ◌>>=◌, ◌>>◌, Library, Floats, same_key, done, return_unless,
  check, call, get_or_leave, fence,
}

module _ {L : Type 0} where
  -- `sprintf` into `sval`.
  unfoldable pub print_into : ℕ → CString → Body L CString
  print_into max_nslen text l = (if ltb (length text) max_nslen then next text else crashes, l)

  -- The loop that stores `n` texts, from number `idx` on.
  unfoldable pub store_texts :
      ℕ → (CString → CString → Body L (Unit {0})) → (ℕ → CString) → ℕ → ℕ → Body L (Unit {0})
  store_texts max_nslen store text zero idx = done tt
  store_texts max_nslen store text (suc n) idx = do
    sval ← print_into max_nslen (text idx)
    store (same_key (pos idx)) sval
    store_texts max_nslen store text n (suc idx)

module _ {L F : Type 0} (lib : Library L F) (fl : Floats F) (max_nslen : ℕ) (self : Proc) where
  -- PMIx_Commit and the fence of all processes of the namespace, with the data.
  unfoldable pub commit_fence : Body L (Unit {0})
  commit_fence = do
    rc ← call lib.commit
    return_unless (is_success rc) error
    rc ← fence lib true true (record { nspace = self.nspace; who = wildcard } ∷ [])
    check rc

  -- The loop that reads `n` texts of the client itself.
  unfoldable pub get_texts : (ℕ → CString) → ℕ → ℕ → Body L (Unit {0})
  get_texts text zero idx = done tt
  get_texts text (suc n) idx = do
    sval ← print_into max_nslen (text idx)
    get_or_leave lib fl true (string sval) self (same_key (pos idx))
    get_texts text n (suc idx)
