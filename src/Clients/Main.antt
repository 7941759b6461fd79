-- ===== src/Clients/Main.antt =====
-- `main` of unit/pmix_client.c behind the reading of its options: the checks of what PMIx_Init and
-- three Gets answer, the tests that the options ask for, and the end.
pub mod Zero
use pmix_tests.Base.{
  ℕ, Bool, true, false, ◌&&◌, not, Option, none, some, List, [], ◌∷◌, ◌==◌, if◌then◌else◌,
}
use pmix_tests.Base.Int.{ℤ, pos, eqb}
use pmix_tests.Base.Text.{CString, str_eq}
use pmix_tests.Base.Status.{Status, is_success}
use pmix_tests.Published.{Proc}
use pmix_tests.Options.Numbers.{to_u32}
use pmix_tests.Options.Params.{Params}
use pmix_tests.Clients.{
  Value, uint32, string, Step, Body, ◌>>=◌, Library, Floats, done, returned, call, ask,
}
use pmix_tests.Clients.Fence.{test_fence}
use pmix_tests.Clients.JobFence.{Constants, test_job_fence}
use pmix_tests.Clients.Publish.{PublishLibrary, test_publish_lookup}
use pmix_tests.Clients.Spawn.{SpawnLibrary, test_spawn}
use pmix_tests.Clients.Connect.{ConnectLibrary, test_connect_disconnect}
use pmix_tests.Clients.Resolve.{ResolveCall, test_resolve_peers}
use pmix_tests.Clients.Events.{EventLibrary, test_error}
use pmix_tests.Clients.Replace.{test_replace}
use pmix_tests.Clients.Internal.{test_internal}

-- The PMIx library with its constants, and the comparison of `float`. `init` is given the operand of
-- --gds.
pub record Client (L F : Type 0) : Type 0 where
  pub init : Option CString → L → Status × Proc × L
  pub finalize : L → Status × L
  pub data_calls : Library L F
  pub publish_calls : PublishLibrary L F
  pub spawn_calls : SpawnLibrary L
  pub connect_calls : ConnectLibrary L
  pub resolve_peers : ResolveCall L
  pub event_calls : EventLibrary L
  pub constants : Constants
  pub floats : Floats F
  pub max_nslen : ℕ
  pub max_keylen : ℕ

-- exit(0), exit(1), or exit with the status of PMIx, of which the system keeps the last eight bits.
pub data Exit : Type 0 where
  zero one : Exit
  status : Status → Exit

module _ {L : Type 0} where
  unfoldable pub exit_unless : Bool → Exit → Body L Exit → Body L Exit
  exit_unless true e more = more
  exit_unless false e more = done e

  -- The tests that are asked for, one after the other; the first one that fails ends the program.
  unfoldable pub run_tests : List (Option (Body L Status)) → Body L Exit → Body L Exit
  run_tests [] more = more
  run_tests (none ∷ tests) more = run_tests tests more
  run_tests (some test ∷ tests) more = do
    rc ← returned test
    exit_unless (is_success rc) (status rc) (run_tests tests more)

abbrev is_job_size : {F : Type 0} → ℤ → Option (Value F) → Bool
is_job_size ns_size (some (uint32 n)) = n == to_u32 ns_size
is_job_size ns_size _ = false

abbrev is_string : {F : Type 0} → Option (Value F) → Bool
is_string (some (string text)) = true
is_string _ = false

abbrev is_uint32 : {F : Type 0} → Option (Value F) → Bool
is_uint32 (some (uint32 n)) = true
is_uint32 _ = false

-- The namespace of the options, if there is one, is that of the process.
abbrev pub is_own : Option CString → CString → Bool
is_own none nspace = true
is_own (some expected) nspace = str_eq nspace expected

abbrev pub when : {A : Type 0} → Bool → A → Option A
when b a = if b then some a else none

module _ {L F : Type 0} (c : Client L F) (params : Params) where
  abbrev fences_test : Proc → Option CString → Option (Body L Status)
  fences_test self none = none
  fences_test self (some fences) =
      some (test_fence c.data_calls c.floats c.max_nslen params fences self)

  abbrev replace_test : Proc → Option CString → Option (Body L Status)
  replace_test self none = none
  replace_test self (some text) = some (test_replace c.data_calls c.floats c.max_nslen self text)

  -- The tests in their order.
  unfoldable pub tests_of : Proc → List (Option (Body L Status))
  tests_of self =
      fences_test self params.fences
      ∷ when params.test_job_fence (test_job_fence c.data_calls c.floats c.constants self params)
      ∷ when params.test_publish (test_publish_lookup c.publish_calls c.max_nslen c.max_keylen self)
      ∷ when params.test_spawn (test_spawn c.spawn_calls c.max_nslen)
      ∷ when params.test_connect (test_connect_disconnect c.connect_calls self.nspace)
      ∷ when params.test_resolve_peers
          (test_resolve_peers c.connect_calls c.resolve_peers c.max_nslen params self.nspace)
      ∷ when params.test_error (test_error c.event_calls self)
      ∷ replace_test self params.key_replace
      ∷ when (not (eqb params.test_internal (pos 0)))
          (test_internal c.data_calls c.floats c.max_nslen self params)
      ∷ []

  -- A Get whose value has to pass a test.
  unfoldable pub get_checked :
      Proc → CString → (Option (Value F) → Bool) → Body L Exit → Body L Exit
  get_checked proc key is_good more = do
    (rc, val) ← ask (c.data_calls.get proc key)
    exit_unless (is_success rc) (status rc) (exit_unless (is_good val) one more)

  -- The last barrier, whose result is not used, and PMIx_Finalize.
  unfoldable pub finish : Body L Exit
  finish = do
    ignored ← call (c.data_calls.fence false [])
    rc ← call c.finalize
    exit_unless (is_success rc) (status rc) (done zero)

  -- What follows once the process knows its name.
  unfoldable pub run_client : Proc → Body L Exit
  run_client self =
      get_checked (record { nspace = self.nspace; rank = c.constants.rank_wildcard })
        c.constants.job_size (is_job_size params.ns_size)
        (get_checked self c.constants.hostname is_string (
          get_checked self c.constants.nodeid is_uint32 (
            exit_unless (is_own params.nspace self.nspace) one (run_tests (tests_of self) finish))))

  unfoldable pub init_client : Body L Exit
  init_client = do
    (rc, self) ← ask (c.init params.gds_mode)
    exit_unless (is_success rc) (status rc)
        (exit_unless (self.rank == params.rank) one (run_client self))

  unfoldable pub client_main : Body L Exit
  client_main = exit_unless (not (params.early_fail && (params.rank == 0))) one init_client
