-- ===== src/Tests/ClientPrograms.antt =====
-- Runs of the client tests of unit/ and of unit/pmix_client.c with libraries that answer their calls.
use pmix_tests.Base.{ℕ, ◌≡◌, refl, true, none, some, [], ◌∷◌, ◌==◌, ◌+◌, if◌then◌else◌}
use pmix_tests.Base.Int.{pos}
use pmix_tests.Base.Text.{codes, str_eq}
use pmix_tests.Base.Status.{Status, success, error, err_not_found}
use pmix_tests.Published.{Proc}
use pmix_tests.Options.Params.{Params, init_params}
use pmix_tests.Clients.{uint32, string}
use pmix_tests.Clients.Outcomes.{Ended}
use pmix_tests.Clients.Connect.{ConnectLibrary, wait_status, test_connect_disconnect}
use pmix_tests.Clients.Resolve.{ResolveCall, test_resolve_peers}
use pmix_tests.Clients.Resolve.Paired.{
  logged, logged_resolve, IsPaired, test_resolve_peers-IsPaired,
}
use pmix_tests.Clients.Main.{
  Client, tests_of, exit_unless, run_tests, client_main, init_client, run_client, get_checked,
  finish,
}
use pmix_tests.Clients.Main.Zero.{AllRan, Passed, client_main-zero}
use pmix_tests.Clients.Spawn.{test_spawn, test_spawn_common, spawned, spawn_cb}
use pmix_tests.Clients.Events.{test_error}
use pmix_tests.Tests.ClientTests.{member, names, exact}

-- A library that is asked to connect and to resolve, and whose third answer is an error.
abbrev third_fails : ℕ → Status × ℕ
third_fails n = (if n == 2 then error else success, n + 1)

abbrev connects : ConnectLibrary ℕ
connects = record {
  connect = λ procs n. third_fails n;
  disconnect = λ procs n. third_fails n;
  connect_nb = λ procs n. (success, some success, n);
  disconnect_nb = λ procs n. (success, some success, n);
}

abbrev resolves : ResolveCall ℕ
resolves node nspace n = (success, some (member 0 ∷ []), n + 1)

abbrev two_namespaces : Params
two_namespaces = record init_params { ns_dist = some (codes "1:1") }

test_resolve_peers-IsPaired_example :
    Ended
      (λ s. IsPaired s.1)
      (test_resolve_peers
        (logged connects)
        (logged_resolve resolves)
        255
        two_namespaces
        (codes "smoky_nspace-0")
        (0, []))
test_resolve_peers-IsPaired_example =
    test_resolve_peers-IsPaired connects resolves 255 two_namespaces (codes "smoky_nspace-0") 0

abbrev all_well : Client (Unit {0}) ℕ
all_well = record {
  init = λ gds l. (success, member 0, l);
  finalize = λ l. (success, l);
  data_calls = record {
    put = λ scope k v l. (success, l);
    store_internal = λ p k v l. (success, l);
    commit = λ l. (success, l);
    fence = λ collect procs l. (success, l);
    fence_nb = λ procs l. (success, true, l);
    get = λ p k l. (
      success,
      if str_eq k (codes "host") then some (string (codes "node1")) else some (uint32 1),
      l,
    );
    get_nb = λ p k l. (success, none, l);
  };
  publish_calls = record {
    publish = λ k v l. (success, l);
    publish_nb = λ k v l. (success, true, l);
    lookup = λ d l. (err_not_found, d, l);
    lookup_nb = λ k l. (err_not_found, none, l);
    unpublish = λ k l. (success, l);
    unpublish_nb = λ k l. (success, true, l);
  };
  spawn_calls = record {
    spawn = λ l. (success, codes "foobar", l);
    spawn_nb = λ l. (success, some (success, codes "foobar"), l);
  };
  connect_calls = record {
    connect = λ procs l. (success, l);
    disconnect = λ procs l. (success, l);
    connect_nb = λ procs l. (success, some success, l);
    disconnect_nb = λ procs l. (success, some success, l);
  };
  resolve_peers = λ node nspace l. (success, none, l);
  event_calls = record {
    err_timeout = error;
    err_lost_peer_connection = error;
    register_event_handler = λ code l. (some 0, l);
    notify_event = λ code source l. (true, l);
    deregister_event_handler = λ ref l. (true, l);
  };
  constants = names;
  floats = exact;
  max_nslen = 255;
  max_keylen = 511;
}

abbrev asks_spawn : Params
asks_spawn = record init_params {
  rank = 0;
  ns_size = pos 1;
  test_spawn = true;
  test_connect = true;
  test_error = true;
}

client_main-zero_example :
    (self : Proc) × (l1 l2 : Unit {0}) × (self.rank ≡ 0)
    × (true ≡ true)
    × AllRan all_well asks_spawn self
    × Passed (tests_of all_well asks_spawn self) l1 l2
    × (all_well.finalize tt ≡ (success, tt))
unfolding client_main exit_unless init_client run_client get_checked str_eq run_tests tests_of
    test_spawn test_spawn_common spawned spawn_cb test_connect_disconnect wait_status test_error
    finish
client_main-zero_example = client_main-zero all_well asks_spawn tt tt refl
