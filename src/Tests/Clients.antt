-- ===== src/Tests/Clients.antt =====
-- Runs of unit/cli_stages.c and of `finalized` in unit/server_callbacks.c on small tables.
use pmix_tests.Base.{◌≡◌, refl, true, false, List, [], ◌∷◌, arith, ok, Returns}
use pmix_tests.Base.Int.{pos}
use pmix_tests.Base.Text.{CString}
use pmix_tests.Cli.{
  forked, fin, disconn, term, undef, live, CliInfo, fresh_cli, Stage, cli_cleanup, state_num,
}
use pmix_tests.Cli.Cleanup.{Kept, cli_cleanup-Kept}
use pmix_tests.Cli.Phases.{running, finished, gone, ClientEvent, launch, finalize, reap}
use pmix_tests.Cli.Lifecycle.{Outcome, client_run-Outcome}
use pmix_tests.Cli.Table.{World, reap_all, Round, none_ready, no_child, cli_wait_all, cli_kill_all}
use pmix_tests.Cli.Table.Kill.{Phases, nil, cons, killed_all, signals_all, cli_kill_all-killed}
use pmix_tests.Cli.Table.Wait.{Waited, any_late, cli_wait_all-Waited, reap_all-reaped}

abbrev job : CString
job = 106 ∷ 111 ∷ 98 ∷ []

abbrev correct_events : List ClientEvent
correct_events = launch (pos 7) 0 job ∷ finalize job 0 ∷ reap ∷ []

client_run-Outcome_example : Outcome correct_events
client_run-Outcome_example = client_run-Outcome correct_events

-- A client on its way over all the stages that `cli_cleanup` knows.
abbrev long_stage : Stage
long_stage = record {
  cli = record fresh_cli {
    state = forked;
    next_state = forked ∷ fin ∷ undef ∷ disconn ∷ term ∷ undef ∷ [];
    ns = live job;
  };
  test_abort = false;
  effects = [];
}

cli_cleanup-Kept_example : Returns (λ t. Kept long_stage t) (cli_cleanup 6 long_stage)
unfolding state_num
cli_cleanup-Kept_example =
    cli_cleanup-Kept 6 long_stage
      (record {
        ordered = record {
          size = refl;
          forward = (tt, (omega arith, (tt, (omega arith, (omega arith, (tt, tt))))));
        };
        in_table = omega arith;
        named = λ _. tt;
        listed = λ _. refl;
      })
      (omega arith)

abbrev run_cli : CliInfo
run_cli = record fresh_cli { pid = pos 7; rank = 0; ns = live job; state = forked }

abbrev done_cli : CliInfo
done_cli = record fresh_cli { pid = pos 8; rank = 1; ns = live job; state = fin }

abbrev run_stage : Stage
run_stage = record { cli = run_cli; test_abort = false; effects = [] }

abbrev two_clients : World
two_clients = record { table = run_cli ∷ done_cli ∷ []; test_abort = false; effects = [] }

two_clients-Phases : Phases (run_cli ∷ done_cli ∷ []) (running ∷ finished ∷ [])
two_clients-Phases =
    cons (record { state = refl; table = refl; named = λ _. tt; no_pid = λ e. cc })
      (cons (record { state = refl; table = refl; named = λ _. tt; no_pid = λ e. cc }) nil)

cli_kill_all-killed_example :
    cli_kill_all two_clients
    ≡ ok (record {
      table = killed_all (running ∷ finished ∷ []) two_clients.table;
      test_abort = true;
      effects = signals_all (running ∷ finished ∷ []) two_clients.table;
    })
cli_kill_all-killed_example = cli_kill_all-killed two_clients two_clients-Phases

abbrev two_rounds : List Round
two_rounds =
    record { reaped = (7, true) ∷ []; wait_end = none_ready; elapsed = 5 }
    ∷ record { reaped = []; wait_end = no_child; elapsed = 9 }
    ∷ []

cli_wait_all-Waited_example :
    Returns (Waited (any_late 10 0 two_rounds) two_clients) (cli_wait_all 10 two_rounds two_clients)
cli_wait_all-Waited_example =
    cli_wait_all-Waited 10 two_rounds two_clients (running ∷ finished ∷ [], two_clients-Phases)

reap_all-reaped_example :
    Returns
      (λ v. Phases v.table (gone ∷ finished ∷ []) × (v.test_abort ≡ true))
      (reap_all ((7, true) ∷ []) two_clients)
reap_all-reaped_example = reap_all-reaped 7 true two_clients two_clients-Phases
