-- ===== src/Clients/Spawn.antt =====
-- unit/test_spawn.c. The calls of the PMIx library answer the namespace of the new processes; the
-- nonblocking one also whether its callback is called. `max_nslen` is PMIX_MAX_NSLEN.
use pmix_tests.Base.{ℕ, Bool, true, false, Option, ltb, length, if◌then◌else◌}
use pmix_tests.Base.Text.{CString, codes, str_eq}
use pmix_tests.Base.Status.{Status, success, error, is_success}
use pmix_tests.Clients.{
  next, crashes, Body, ◌>>=◌, ◌>>◌, done, return_unless, returned, check, ask, wait_for,
}

pub record SpawnLibrary (L : Type 0) : Type 0 where
  pub spawn : L → Status × CString × L
  pub spawn_nb : L → Status × Option (Status × CString) × L

-- `spawn_cb` copies the name and its end into an array of PMIX_MAX_NSLEN bytes; it does not look at
-- the status.
unfoldable pub spawn_cb : {L : Type 0} → ℕ → Status × CString → Body L CString
spawn_cb max_nslen (status, nspace) l =
    (if ltb (length nspace) max_nslen then next nspace else crashes, l)

module _ {L : Type 0} (lib : SpawnLibrary L) (max_nslen : ℕ) where
  unfoldable pub spawned : Bool → Body L CString
  spawned true = do (rc, nspace) ← ask lib.spawn; check rc; done nspace
  spawned false = do
    (rc, answer) ← ask lib.spawn_nb
    check rc
    a ← wait_for answer
    spawn_cb max_nslen a

  unfoldable pub test_spawn_common : Bool → Body L Status
  test_spawn_common blocking = do
    nspace ← spawned blocking
    return_unless (str_eq nspace (codes "foobar")) error
    done success

  unfoldable pub test_spawn : Body L Status
  test_spawn = do
    rc ← returned (test_spawn_common true)
    return_unless (is_success rc) error
    rc ← returned (test_spawn_common false)
    return_unless (is_success rc) error
    done success
