-- ===== src/Clients/Connect.antt =====
-- unit/test_cd.c: `test_connect_disconnect`. A nonblocking call also answers the status that its
-- callback is given, or `none` if it is never called.
use pmix_tests.Base.{Option, List, [], ◌∷◌}
use pmix_tests.Base.Status.{Status, success, error, is_success}
use pmix_tests.Base.Text.{CString}
use pmix_tests.Options.Ranges.{wildcard, Participant}
use pmix_tests.Clients.{Body, ◌>>=◌, ◌>>◌, done, return_unless, call, ask, wait_for}

pub record ConnectLibrary (L : Type 0) : Type 0 where
  pub connect : List Participant → L → Status × L
  pub disconnect : List Participant → L → Status × L
  pub connect_nb : List Participant → L → Status × Option Status × L
  pub disconnect_nb : List Participant → L → Status × Option Status × L

-- All processes of a namespace.
abbrev pub all_of : CString → Participant
all_of nspace = record { nspace = nspace; who = wildcard }

module _ {L : Type 0} where
  -- The status of a nonblocking call, which that of its callback replaces if the call succeeds.
  unfoldable pub wait_status : Status → Option Status → Body L Status
  wait_status success answer = wait_for answer
  wait_status rc answer = done rc

module _ {L : Type 0} (lib : ConnectLibrary L) where
  unfoldable pub test_connect_disconnect : CString → Body L Status
  test_connect_disconnect my_nspace = do
    rc ← call (lib.connect (all_of my_nspace ∷ []))
    return_unless (is_success rc) error
    rc ← call (lib.disconnect (all_of my_nspace ∷ []))
    return_unless (is_success rc) error
    (rc, answer) ← ask (lib.connect_nb (all_of my_nspace ∷ []))
    rc ← wait_status rc answer
    return_unless (is_success rc) error
    (rc, answer) ← ask (lib.disconnect_nb (all_of my_nspace ∷ []))
    rc ← wait_status rc answer
    return_unless (is_success rc) error
    done success
