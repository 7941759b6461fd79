-- ===== src/Driver/Main.antt =====
-- `main` of unit/pmix_test.c behind the reading of its options. The progress thread runs the
-- callbacks `finalized` and `wait_signal_callback` while `main` waits for the clients: a `Turn` is
-- one round of the loop in which it waits, with the callbacks that run before the round.
pub mod Ending
pub mod Verdict
use pmix_tests.Base.{
  ℕ, zero, suc, ◌+◌, Bool, true, false, not, ◌&&◌, ◌||◌, Option, none, some, List, [], ◌∷◌, ◌==◌,
  ltb, if◌then◌else◌, Run, ok, ◌>>=◌,
}
use pmix_tests.Base.Int.{ℤ, pos, negsuc, eqb, is_negative, ◌+ℤ◌}
use pmix_tests.Base.Text.{CString}
use pmix_tests.Cli.{cli_init}
use pmix_tests.Cli.Table.{
  World, Round, WaitResult, loop_done, no_children, exited, waiting, test_terminated, cli_wait_all,
}
use pmix_tests.Callbacks.{Server, finalized}
use pmix_tests.Options.Numbers.{strtol, to_int, to_u32}
use pmix_tests.Options.Ranges.{tokens}
use pmix_tests.Options.Params.{Params}
use pmix_tests.Options.ClientArgs.{set_client_argv}
use pmix_tests.Server.Shares.{base_rank}
use pmix_tests.Server.Job.{Host}
use pmix_tests.Server.Start.{
  Started, started, failed, InitResult, InitEnv, server_init, FinalizeEnv, server_finalize,
}
use pmix_tests.Driver.{
  Harness, Answers, LaunchEnd, returned, execs, wait_signal_callback, set_world, kill_all,
  server_launch_clients,
}

-- What `stat` says of the client's executable.
pub data Binary : Type 0 where
  missing not_regular not_executable executable : Binary

pub data Callback : Type 0 where
  finalized_called : CString → ℕ → Bool → Callback
  child_signal : List ℕ → Callback

-- `late`: the test's timeout has passed. `rounds` are those of `cli_wait_all(0)`.
pub record Turn : Type 0 where
  pub callbacks : List Callback
  pub late : Bool
  pub rounds : List Round

-- The answers of the system and of the libraries: `launch c n` for client `n` of call `c` of
-- `server_launch_clients`; `spawned` if `spawn_wait` is set in the end; `last_rounds` for
-- `cli_wait_all(1.0)`.
pub record Env : Type 0 where
  pub binary : Binary
  pub init : InitEnv
  pub my_pid : ℕ
  pub generate_regex : CString → Option CString
  pub generate_ppn : CString → CString
  pub launch : ℕ → ℕ → Answers
  pub turns : List Turn
  pub spawned : Bool
  pub last_rounds : List Round
  pub finalize : FinalizeEnv

-- `main` returns, `cli_wait_all` exits the program with 0, the process runs a client, or it still
-- waits.
pub data MainEnd : Type 0 where
  returns : ℤ → MainEnd
  exits : MainEnd
  runs_client : List CString → MainEnd
  waits : MainEnd

-- How the start of the clients ends: with the number of clients, with a distribution of more
-- processes than there are, or in the process of a client.
pub data Launch (V : Type 0) : Type 0 where
  launched : ℤ → Harness V → Launch V
  mismatch : Launch V
  in_client : List CString → Launch V

-- How the waiting for the clients ends.
pub data Hang (V : Type 0) : Type 0 where
  over : Harness V → Hang V
  hang_exits : Hang V
  hang_waits : Hang V

module _ {V : Type 0} where
  unfoldable pub run_callback : Callback → Harness V → Run (Harness V)
  run_callback (finalized_called nspace rank has_cb) h = do
    r ← finalized nspace rank has_cb h.server
    ok (record h { server = r.0 })
  run_callback (child_signal pids) h = do
    w ← wait_signal_callback pids h.server.world
    ok (set_world w h)

  unfoldable pub run_callbacks : List Callback → Harness V → Run (Harness V)
  run_callbacks [] h = ok h
  run_callbacks (c ∷ cs) h = do k ← run_callback c h; run_callbacks cs k

  -- What follows a call of `cli_wait_all`.
  unfoldable pub after_wait :
      (Harness V → Run (Hang V)) → Harness V → World × WaitResult → Run (Hang V)
  after_wait next h (w, loop_done) = next (set_world w h)
  after_wait next h (w, no_children) = next (set_world w h)
  after_wait next h (w, exited) = ok hang_exits
  after_wait next h (w, waiting) = ok hang_waits

  -- The round of the loop; `next` are those behind it.
  unfoldable pub run_turn : (Harness V → Run (Hang V)) → Turn → Harness V → Run (Hang V)
  run_turn next t h =
      let round = (do r ← cli_wait_all 0 t.rounds h.server.world; after_wait next h r) in
      if t.late then ok (over h) else round

  -- `while (!test_terminated())`
  unfoldable pub hang_around : List Turn → Harness V → Run (Hang V)
  hang_around [] h = if test_terminated h.server.world then ok (over h) else ok hang_waits
  hang_around (t ∷ ts) h =
      let turn = (do k ← run_callbacks t.callbacks h; run_turn (hang_around ts) t k) in
      if test_terminated h.server.world then ok (over h) else turn

  -- A call of `server_launch_clients` in the loop over `ns_dist`; `next` are the tokens behind it.
  unfoldable pub add_launched :
      (ℤ → Harness V → Run (Launch V)) → ℤ → LaunchEnd × Harness V → Run (Launch V)
  add_launched next so_far (returned rc, h) = next (so_far +ℤ rc) h
  add_launched next so_far (execs argv, h) = ok (in_client argv)

module _ {V : Type 0} (p : Params) (host : Host) (lsize : ℕ) (launch : ℕ → ℕ → Answers) where
  -- The loop over the tokens of `ns_dist`, at call `c`; -1 is PMIX_ERROR.
  unfoldable pub launch_namespaces : List CString → ℕ → ℤ → Harness V → Run (Launch V)
  launch_namespaces [] c so_far h = ok (launched so_far h)
  launch_namespaces (t ∷ ts) c so_far h =
      let n = to_int (strtol t) in
      let skip = launch_namespaces ts c so_far h in
      let start = (do
        r ← server_launch_clients host (to_u32 n) (to_u32 n) 0 (set_client_argv p) (launch c) h
        add_launched (launch_namespaces ts (suc c)) so_far r) in
      if ltb p.nprocs (to_u32 (so_far +ℤ n))
      then ok mismatch
      else if is_negative n || eqb n (pos 0)
      then skip
      else start

  -- The number of servers is positive here.
  unfoldable pub launch_all : ℕ → Option CString → Harness V → Run (Launch V)
  launch_all nservers none h = do
    r ←
        server_launch_clients host lsize p.nprocs (base_rank p.nprocs nservers host.my_server_id)
          (set_client_argv p) (launch 0) h
    add_launched (λ n k. ok (launched n k)) (pos 0) r
  launch_all nservers (some dist) h = launch_namespaces (tokens 58 [] dist) 0 (pos 0) h

abbrev pub returns_total : ℕ → Option ℤ → MainEnd
returns_total fails none = waits
returns_total fails (some total) = returns (pos fails +ℤ total)

module _ {V : Type 0} where
  -- `test_fail += server_finalize(&params, test_fail)`
  unfoldable pub finish : Env → Started → ℕ → Hang V → MainEnd
  finish e s fails hang_exits = exits
  finish e s fails hang_waits = waits
  finish e s fails (over h) = returns_total fails (server_finalize e.finalize s fails)

  -- From the test for a spawned process on.
  unfoldable pub last_wait : Env → Started → Bool → ℕ → Harness V → Run MainEnd
  last_wait e s test_spawn fails h =
      let wait = (do
        r ← cli_wait_all 1000000 e.last_rounds h.server.world
        end ← after_wait (λ k. ok (over k)) h r
        ok (finish e s fails end)) in
      if test_spawn && not e.spawned then ok waits else wait

  -- `if (!test_terminated())`: the clients are killed.
  unfoldable pub time_out : ℕ → Harness V → Run (ℕ × Harness V)
  time_out fails h =
      let killed = (do k ← kill_all h; ok (1, k)) in
      if test_terminated h.server.world then ok (fails, h) else killed

  unfoldable pub after_hang : Env → Started → Bool → ℕ → Hang V → Run MainEnd
  after_hang e s test_spawn fails hang_exits = ok exits
  after_hang e s test_spawn fails hang_waits = ok waits
  after_hang e s test_spawn fails (over h) = do
    t ← time_out fails h
    last_wait e s test_spawn (if t.1.server.world.test_abort then 1 else t.0) t.1

  -- `if (params.lsize != (uint32_t)launched)`
  unfoldable pub check_launched : ℕ → ℤ → Harness V → Run (ℕ × Harness V)
  check_launched lsize n h =
      let killed = (do k ← kill_all h; ok (1, k)) in if lsize == to_u32 n then ok (0, h) else killed

  unfoldable pub after_launch : Env → Started → Bool → ℕ → Launch V → Run MainEnd
  after_launch e s test_spawn lsize mismatch = ok (returns (negsuc 0))
  after_launch e s test_spawn lsize (in_client argv) = ok (runs_client argv)
  after_launch e s test_spawn lsize (launched n h) = do
    c ← check_launched lsize n h
    hang ← hang_around e.turns c.1
    after_hang e s test_spawn c.0 hang

  -- The state of a new server process, behind `cli_init(params.lsize)`.
  abbrev pub fresh : ℕ → Harness V
  fresh lsize = record {
    server = record {
      world = record { table = cli_init lsize; test_abort = false; effects = [] };
      published = none;
      finalized_count = 0;
      numconnect = 0;
      spawn_wait = false;
    };
    nspaces = [];
    cli_counter = 0;
    num_ns = 0;
    jobs = [];
    finalize_calls = 0;
  }

abbrev pub host_of : Params → Env → Started → Host
host_of p e s = record {
  nservers = to_u32 p.nservers;
  my_server_id = s.my_server_id;
  hostname = s.hostname;
  pid = e.my_pid;
  generate_regex = e.generate_regex;
  generate_ppn = e.generate_ppn;
}

module _ (V : Type 0) (p : Params) (e : Env) where
  unfoldable pub after_init : ℕ → InitResult × ℕ → Run MainEnd
  after_init nservers (failed rc, lsize) = ok (returns rc)
  after_init nservers (started s, lsize) = do
    l ← launch_all {V = V} p (host_of p e s) lsize e.launch nservers p.ns_dist (fresh lsize)
    after_launch e s p.test_spawn lsize l

  -- `main` behind `parse_cmd`; an executable that cannot be run ends it with 0.
  unfoldable pub checked_main : Binary → Run MainEnd
  checked_main executable = do
    r ← server_init e.init p.nprocs p.nservers
    after_init (to_u32 p.nservers) r
  checked_main _ = ok (returns (pos 0))

  unfoldable pub pmix_test_main : Run MainEnd
  pmix_test_main = checked_main e.binary
