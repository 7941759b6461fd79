-- ===== src/Tests/Data.antt =====
-- Published data and client callbacks of unit/server_callbacks.c on small lists and tables.
use pmix_tests.Base.{ℕ, ◌≡◌, refl, inr, true, false, none, some, List, [], ◌∷◌, ok}
use pmix_tests.Base.Int.{pos}
use pmix_tests.Base.Text.{CString, str_eq}
use pmix_tests.Published.{Info, Proc, TestInfo}
use pmix_tests.Cli.{CliInfo, fresh_cli, live, freed, forked, fin, term}
use pmix_tests.Callbacks.{Server, reply_success, finalized}
use pmix_tests.Callbacks.Finalized.{finalized-running}

abbrev host : CString
host = 104 ∷ 111 ∷ []

abbrev port : CString
port = 112 ∷ 111 ∷ []

abbrev job : CString
job = 106 ∷ []

abbrev other_job : CString
other_job = 107 ∷ []

abbrev publisher : Proc
publisher = record { nspace = job; rank = 3 }

abbrev host_info : Info ℕ
host_info = record { key = host; value = 10 }

abbrev port_info : Info ℕ
port_info = record { key = port; value = 20 }

abbrev published : List (TestInfo ℕ)
published = record { info = host_info; namespace_published = job; rank_published = 3 } ∷ []

abbrev other_cli : CliInfo
other_cli = record fresh_cli { pid = pos 7; rank = 0; ns = live other_job; state = forked }

abbrev run_cli : CliInfo
run_cli = record fresh_cli { pid = pos 8; rank = 0; ns = live job; state = forked }

abbrev over_cli : CliInfo
over_cli = record fresh_cli { rank = 0; ns = freed other_job; state = term }

abbrev server_of : List CliInfo → Server ℕ
server_of table = record {
  world = record { table = table; test_abort = false; effects = [] };
  published = some published;
  finalized_count = 1;
  numconnect = 0;
  spawn_wait = false;
}

-- The second of two clients finalizes: the published data are released.
finalized-running_example :
    finalized job 0 true (server_of (other_cli ∷ run_cli ∷ []))
    ≡ ok (
      record (server_of (other_cli ∷ record run_cli { state = fin } ∷ [])) {
        finalized_count = 2;
        published = none;
      },
      reply_success true,
    )
unfolding str_eq
finalized-running_example =
    finalized-running job 0 true (server_of (other_cli ∷ run_cli ∷ [])) (other_cli ∷ []) [] run_cli
      refl (inr (other_job, refl, refl), tt) refl refl
      (record { state = refl; table = refl; named = λ _. tt; no_pid = λ e. cc })
