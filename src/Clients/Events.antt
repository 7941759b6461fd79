-- ===== src/Clients/Events.antt =====
-- unit/test_error.c. A registration answers the reference that its callback sets, or `none` if the
-- callback has not been called when the reference is used; the other calls answer whether their
-- callback is called. The results of the calls are not used. The handlers themselves only print and
-- call `cbfunc`.
use pmix_tests.Base.{ℕ, Bool, Option, some, none}
use pmix_tests.Base.Status.{Status, success}
use pmix_tests.Published.{Proc}
use pmix_tests.Clients.{next, crashes, Body, ◌>>=◌, ◌>>◌, done, wait_flag}

pub record EventLibrary (L : Type 0) : Type 0 where
  pub err_timeout : Status
  pub err_lost_peer_connection : Status
  pub register_event_handler : Status → L → Option ℕ × L
  pub notify_event : Status → Proc → L → Bool × L
  pub deregister_event_handler : ℕ → L → Bool × L

module _ {L : Type 0} where
  abbrev run : {A : Type 0} → (L → A × L) → Body L A
  run f l = let (a, l') = f l in (next a, l')

  -- A reference that has not been set is not initialised.
  abbrev the_ref : Option ℕ → Body L ℕ
  the_ref none l = (crashes, l)
  the_ref (some ref) l = (next ref, l)

module _ {L : Type 0} (lib : EventLibrary L) where
  unfoldable pub test_error : Proc → Body L Status
  test_error self = do
    timeout_ref ← run (lib.register_event_handler lib.err_timeout)
    comfail_ref ← run (lib.register_event_handler lib.err_lost_peer_connection)
    called ← run (lib.notify_event lib.err_timeout self)
    wait_flag called
    ref ← the_ref timeout_ref
    called ← run (lib.deregister_event_handler ref)
    wait_flag called
    ref ← the_ref comfail_ref
    called ← run (lib.deregister_event_handler ref)
    wait_flag called
    done success
