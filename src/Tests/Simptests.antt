-- ===== src/Tests/Simptests.antt =====
-- simple/simptest.c on small inputs.
use pmix_tests.Base.{ℕ, ◌≡◌, ◌≢◌, ◌⊎◌, refl, true, false, some, List, [], ◌∷◌, arith}
use pmix_tests.Base.Int.{ℤ, pos, negsuc}
use pmix_tests.Base.Text.{CString, codes}
use pmix_tests.Base.Status.{success, err_not_found}
use pmix_tests.Options.Numbers.{print_int}
use pmix_tests.Published.{Info, Proc}
use pmix_tests.Simptest.{Tracker, Globals}
use pmix_tests.Simptest.Lookup.{publish_fn, lookup_fn, lookup_fn-publish_fn, all_offered}
use pmix_tests.Simptest.Reap.{
  Waited, exited, signaled, interrupted, child, nothing, wait_signal_callback, account, mark,
  set_pid, record_pid, pred, new_code,
}
use pmix_tests.Simptest.Reap.Counts.{AllFine, wait_signal_callback-wakeup}
use pmix_tests.Simptest.Main.{
  defaults, Settings, Child, Env, parse_args, contains, simptest_main, run, launch, after_launch,
  wait_children, signals, allocated, finish,
}
use pmix_tests.Simptest.Main.Command.{parse_args-command}
use pmix_tests.Simptest.Main.Ends.{AllEnded}
use pmix_tests.Simptest.Main.Verdict.{simptest_main-verdict}

abbrev globals : Globals ℕ
globals = record {
  wakeup = pos 0;
  exit_code = pos 0;
  children = [];
  istimeouttest = false;
  pubdata = [];
  numconnects = 0;
}

abbrev publisher : Proc
publisher = record { nspace = codes "foobar"; rank = 1 }

abbrev info : CString → ℕ → Info ℕ
info key value = record { key = key; value = value }

lookup_fn-publish_fn_example :
    lookup_fn 255 511
      (codes "port" ∷ codes "none" ∷ codes "host" ∷ [])
      true
      (publish_fn 255 511 publisher
        (info (codes "host") 1 ∷ info (codes "port") 2 ∷ [])
        true
        globals).0
    ≡ (
      some (
        err_not_found,
        all_offered 255 511 publisher
            (info (codes "host") 1 ∷ info (codes "port") 2 ∷ [])
            (codes "port" ∷ codes "none" ∷ codes "host" ∷ []),
      ),
      success,
    )
lookup_fn-publish_fn_example =
    lookup_fn-publish_fn 255 511 publisher (info (codes "host") 1) (info (codes "port") 2 ∷ []) true
      (codes "port" ∷ codes "none" ∷ codes "host" ∷ []) globals

abbrev running : ℤ → Tracker
running pid = record { exit_code = 0; pid = pid }

abbrev two_running : Globals ℕ
two_running = record globals { wakeup = pos 2; children = running (pos 11) ∷ running (pos 12) ∷ [] }

abbrev ended : List Waited
ended =
    interrupted
    ∷ child (pos 12) (signaled 9)
    ∷ child (pos 99) (exited 1)
    ∷ child (pos 11) (exited 0)
    ∷ nothing
    ∷ []

wait_signal_callback-wakeup_example : (wait_signal_callback ended two_running).wakeup ≡ pos 0
wait_signal_callback-wakeup_example = wait_signal_callback-wakeup ended two_running 0 refl

-- The exit code of the test is that of the first child that failed.
first_failure : (wait_signal_callback ended two_running).exit_code ≡ pos 137
unfolding wait_signal_callback account mark new_code
first_failure = refl

parse_args-command_example :
    parse_args
      (codes "-n" ∷ print_int (pos 4) ∷ codes "-e" ∷ codes "./simpft" ∷ codes "-x" ∷ [])
      defaults
    ≡ some (record defaults {
      nprocs = 4;
      executable = some (codes "./simpft");
      client_argv = codes "-x" ∷ [];
      istimeouttest = contains (codes "simptimeout") (codes "./simpft");
    })
parse_args-command_example = parse_args-command 4 (codes "./simpft") (codes "-x" ∷ []) (omega arith)

abbrev good_child : Child
good_child = record { setup_fork = pos 0; register_client = pos 0; pid = pos 11; early = [] }

abbrev good : Env
good = record {
  server_init = pos 0;
  handler = pos 0;
  thread_start = pos 0;
  collect_inventory = pos 0;
  inventory = pos 0;
  start = λ n. good_child;
  later = (child (pos 11) (exited 0) ∷ nothing ∷ []) ∷ [];
  server_finalize = pos 0;
}

simptest_main-verdict_example :
    ((o : Settings) × (parse_args [] defaults ≡ some o)
      × (((good.collect_inventory ≢ pos 0) × ((simptest_main [] good globals).started ≡ []))
          ⊎ AllEnded o good globals))
    × AllFine (simptest_main [] good globals).globals.children
unfolding simptest_main parse_args run allocated launch after_launch wait_children signals
    wait_signal_callback account mark new_code record_pid set_pid pred finish
simptest_main-verdict_example = simptest_main-verdict [] good globals refl

abbrev uncollected : Env
uncollected = record good { collect_inventory = negsuc 46 }

abbrev early : Env
early = record good {
  start = λ n. record good_child { early = (child (pos 11) (exited 0) ∷ nothing ∷ []) ∷ [] };
  later = [];
}
