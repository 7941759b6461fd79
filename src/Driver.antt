-- ===== src/Driver.antt =====
-- The harness that unit/pmix_test.c starts: `server_launch_clients` and `wait_signal_callback` of
-- unit/test_server.c in this file, `main` of unit/pmix_test.c in Driver/Main. The messages of
-- `server_send_procs`, the environment of a client and its registration with the PMIx library are
-- not kept; `finalize_calls` counts the calls of PMIx_server_finalize.
pub mod Launched
pub mod Main
use pmix_tests.Base.{
  ℕ, zero, suc, ◌+◌, Bool, true, false, not, Option, none, some, List, [], ◌∷◌, ◌++◌, if◌then◌else◌,
  Run, ok, fault, ◌>>=◌,
}
use pmix_tests.Base.Int.{ℤ, pos, negsuc, eqb, is_negative}
use pmix_tests.Base.Text.{CString}
use pmix_tests.Cli.{CliInfo, Stage, cli_cleanup}
use pmix_tests.Cli.Phases.{launch, client_step}
use pmix_tests.Cli.Table.{World, cleanup_fuel, cli_kill_all}
use pmix_tests.Callbacks.{Server, at_entry}
use pmix_tests.Options.ClientArgs.{launch_args}
use pmix_tests.Options.Distribution.{ns_name}
use pmix_tests.Server.Procs.{ServerNspace}
use pmix_tests.Server.Launch.{register_nspace}
use pmix_tests.Server.Job.{Job, Host, set_namespace}

-- The state of one server process; the two counters are static in `server_launch_clients`.
pub record Harness (V : Type 0) : Type 0 where
  pub server : Server V
  pub nspaces : List ServerNspace
  pub cli_counter : ℕ
  pub num_ns : ℕ
  pub jobs : List Job
  pub finalize_calls : ℕ

-- The namespaces that were registered with the PMIx library, in order.
unfoldable pub add_job : Option Job → List Job → List Job
add_job none jobs = jobs
add_job (some job) jobs = jobs ++ job ∷ []

-- What is answered for one client: whether PMIx_server_register_client succeeds, or has succeeded
-- at once, the result of PMIx_server_setup_fork, and that of `fork`.
pub record Answers : Type 0 where
  pub registered : Bool
  pub setup_fork : ℤ
  pub fork : ℤ

-- `server_launch_clients` returns in the server; in a forked process it runs the client with
-- arguments.
pub data LaunchEnd : Type 0 where
  returned : ℤ → LaunchEnd
  execs : List CString → LaunchEnd

abbrev one_later : Option ℕ → Option ℕ
one_later none = none
one_later (some i) = some (suc i)

-- The first entry with a process id.
unfoldable pub find_pid : ℤ → List CliInfo → Option ℕ
find_pid p [] = none
find_pid p (c ∷ cs) = let later = one_later (find_pid p cs) in if eqb c.pid p then some 0 else later

unfoldable pub reap_pid : Option ℕ → World → Run World
reap_pid none w = ok w
reap_pid (some i) w = at_entry i (cli_cleanup cleanup_fuel) w

-- `wait_signal_callback`, for the process ids that `waitpid` answers with. The fields `exit_code`
-- and `alive` and the flag `test_complete` that it sets are read nowhere else.
unfoldable pub wait_signal_callback : List ℕ → World → Run World
wait_signal_callback [] w = ok w
wait_signal_callback (p ∷ ps) w = do
  w1 ← reap_pid (find_pid (pos p) w.table) w
  wait_signal_callback ps w1

abbrev set_pid : ℤ → Stage → Run Stage
set_pid p s = ok (record s { cli = record s.cli { pid = p } })

module _ {V : Type 0} where
  abbrev pub set_world : World → Harness V → Harness V
  set_world w h = record h { server = record h.server { world = w } }

  abbrev pub count_finalize : Harness V → Harness V
  count_finalize h = record h { finalize_calls = suc h.finalize_calls }

  abbrev pub kill_all : Harness V → Run (Harness V)
  kill_all h = do w ← cli_kill_all h.server.world; ok (set_world w h)

  -- An error: the PMIx server is finalized and the clients are killed.
  unfoldable pub give_up : ℤ → Harness V → Run (LaunchEnd × Harness V)
  give_up rc h = do k ← kill_all (count_finalize h); ok (returned rc, k)

  -- `cli_info[cli_counter].pid = fork()`, which failed.
  unfoldable pub fork_failed : ℤ → Harness V → Run (LaunchEnd × Harness V)
  fork_failed p h = do
    w ← at_entry h.cli_counter (set_pid p) h.server.world
    give_up (pos 0) (set_world w h)

  -- The entry of a client that was forked.
  unfoldable pub enter_client : ℤ → ℕ → CString → Harness V → Run (Harness V)
  enter_client p rank name h = do
    w ← at_entry h.cli_counter (client_step (launch p rank name)) h.server.world
    ok (record (set_world w h) { cli_counter = suc h.cli_counter })

module _ {V : Type 0} (base_argv : List CString) (univ_size base_rank : ℕ) (name : CString)
    (answers : ℕ → Answers) where
  -- The result of `fork` for client `n`; `next` are the rounds behind it.
  unfoldable pub forked :
      (Harness V → Run (LaunchEnd × Harness V)) → ℕ → ℤ → Harness V → Run (LaunchEnd × Harness V)
  forked next n p h =
      let more = (do k ← enter_client p (base_rank + n) name h; next k) in
      if is_negative p
      then fork_failed p h
      else if eqb p (pos 0)
      then ok (execs (base_argv ++ launch_args (base_rank + n) name univ_size h.num_ns), h)
      else more

  -- `for (n = 0; n < local_size; n++)`, from client `n` on; at its end `n` is `rank_counter`.
  unfoldable pub launch_loop : ℕ → ℕ → Harness V → Run (LaunchEnd × Harness V)
  launch_loop zero n h = ok (returned (pos n), record h { num_ns = suc h.num_ns })
  launch_loop (suc k) n h =
      let a = answers n in
      let more = forked (launch_loop k (suc n)) n a.fork h in
      if not a.registered
      then give_up (pos 0) h
      else if not (eqb a.setup_fork (pos 0))
      then give_up a.setup_fork h
      else more

module _ {V : Type 0} where
  unfoldable pub server_launch_clients :
      Host
      → (local_size univ_size base_rank : ℕ) → List CString
      → (ℕ → Answers)
      → Harness V
      → Run (LaunchEnd × Harness V)
  server_launch_clients host local_size univ_size base_rank base_argv answers h = do
    nspaces ←
        register_nspace (ns_name h.num_ns) local_size univ_size base_rank host.my_server_id
          h.nspaces
    launch_loop base_argv univ_size base_rank (ns_name h.num_ns) answers local_size 0 (record h {
      nspaces = nspaces;
      jobs = add_job (set_namespace host local_size univ_size base_rank (ns_name h.num_ns)) h.jobs;
    })
