-- ===== src/Clients/Publish.antt =====
-- unit/test_publish.c. The calls of the PMIx library publish, look up and take back one item; a
-- nonblocking call also answers what its callback is given, or that it is not called. A value whose
-- text is NULL is `untested`, as is the value of an item before the lookup. `max_nslen` and
-- `max_keylen` are PMIX_MAX_NSLEN and PMIX_MAX_KEYLEN.
pub mod Item
pub mod Served
use pmix_tests.Base.{
  ℕ, ◌-◌, Bool, true, false, not, Option, none, some, List, [], ◌∷◌, ◌++◌, take, if◌then◌else◌,
}
use pmix_tests.Base.Int.{pos}
use pmix_tests.Base.Text.{CString, codes, str_eq}
use pmix_tests.Base.Status.{Status, success, error, err_not_found, is_success, is_not_found}
use pmix_tests.Published.{Proc, Pdata}
use pmix_tests.Options.Numbers.{print_int}
use pmix_tests.Clients.{
  Value, string, untested, Step, next, leave, hangs, crashes, Body, ◌>>=◌, ◌>>◌, done,
  return_unless, returned, check, call, ask, wait_for, wait_flag,
}
use pmix_tests.Clients.Fence.{is_prefix}
use pmix_tests.Clients.JobFence.{name_of}

pub record PublishLibrary (L F : Type 0) : Type 0 where
  pub publish : CString → Value F → L → Status × L
  pub publish_nb : CString → Value F → L → Status × Bool × L
  pub lookup : Pdata (Value F) → L → Status × Pdata (Value F) × L
  pub lookup_nb : CString → L → Status × Option (List (Pdata (Value F))) × L
  pub unpublish : CString → L → Status × L
  pub unpublish_nb : CString → L → Status × Bool × L

-- The name that a process publishes, cut by `snprintf` to its field.
abbrev pub key_of : ℕ → Proc → CString
key_of max_keylen self = take (max_keylen - 1) (name_of self)

-- The text that it publishes, in a buffer of 512 bytes.
abbrev pub data_of : Proc → CString
data_of self = take 511 (codes "data from proc " ++ name_of self)

module _ {F : Type 0} (max_nslen : ℕ) where
  -- The loop of `lookup_cb` over the targets: the first one with the key gets the value.
  unfoldable pub transfer : Pdata (Value F) → List (Pdata (Value F)) → List (Pdata (Value F))
  transfer d [] = []
  transfer d (t ∷ ts) =
      let rest = transfer d ts in
      if str_eq d.key t.key
      then record {
        proc = record { nspace = take max_nslen d.proc.nspace; rank = d.proc.rank };
        key = t.key;
        value = d.value;
      }
        ∷ ts
      else t ∷ rest

  unfoldable pub lookup_cb :
      List (Pdata (Value F)) → List (Pdata (Value F)) → List (Pdata (Value F))
  lookup_cb [] tgt = tgt
  lookup_cb (d ∷ ds) tgt = lookup_cb ds (transfer d tgt)

-- The value of the only item of an array.
abbrev pub only : {F : Type 0} → List (Pdata (Value F)) → Value F
only [] = untested
only (d ∷ ds) = d.value

-- An item as PMIX_PDATA_CONSTRUCT makes it, with the key to look up.
abbrev pub new_pdata : {F : Type 0} → CString → Pdata (Value F)
new_pdata key = record { proc = record { nspace = []; rank = 0 }; key = key; value = untested }

-- The tests behind a lookup that ended with `rc`: the type, and the start of the text.
unfoldable pub compare : {F : Type 0} → CString → Value F → Status → Status
compare expected (string text) rc = if is_prefix expected text then rc else err_not_found
compare expected _ rc = err_not_found

module _ {L : Type 0} where
  -- A nonblocking call that waits for `release_cb` if it succeeds.
  abbrev pub wait_release : Status → Bool → Body L Status
  wait_release success called = do wait_flag called; done success
  wait_release rc called = done rc

module _ {L F : Type 0} (lib : PublishLibrary L F) (max_nslen max_keylen : ℕ) (self : Proc) where
  unfoldable pub test_publish : Bool → Body L Status
  test_publish true = call (lib.publish (key_of max_keylen self) (string (data_of self)))
  test_publish false = do
    (rc, called) ← ask (lib.publish_nb (key_of max_keylen self) (string (data_of self)))
    wait_release rc called

  unfoldable pub test_lookup : Bool → Body L Status
  test_lookup true = do
    (rc, d) ← ask (lib.lookup (new_pdata (key_of max_keylen self)))
    check rc
    done (compare (data_of self) d.value rc)
  test_lookup false = do
    (rc, answer) ← ask (lib.lookup_nb (key_of max_keylen self))
    check rc
    ds ← wait_for answer
    done (
        compare (data_of self)
          (only (lookup_cb max_nslen ds (new_pdata (key_of max_keylen self) ∷ []))) rc)

  unfoldable pub test_unpublish : Bool → Body L Status
  test_unpublish true = call (lib.unpublish (key_of max_keylen self))
  test_unpublish false = do
    (rc, called) ← ask (lib.unpublish_nb (key_of max_keylen self))
    wait_release rc called

  unfoldable pub test_publish_lookup_common : Bool → Body L Status
  test_publish_lookup_common blocking = do
    rc ← test_publish blocking
    return_unless (is_success rc) error
    rc ← returned (test_lookup blocking)
    return_unless (is_success rc) error
    rc ← test_unpublish blocking
    return_unless (is_success rc) error
    rc ← returned (test_lookup blocking)
    return_unless (is_not_found rc) error
    done success

  unfoldable pub test_publish_lookup : Body L Status
  test_publish_lookup = do
    rc ← returned (test_publish_lookup_common true)
    return_unless (is_success rc) error
    rc ← returned (test_publish_lookup_common false)
    return_unless (is_success rc) error
    done success
