-- ===== src/Tests/Harness.antt =====
-- Runs of the harness of unit/pmix_test.c and of the servers of unit/test_server.c.
use pmix_tests.Base.{
  ℕ, ◌+◌, ◌*◌, ◌≡◌, refl, true, false, ◌⊎◌, none, some, List, [], ◌∷◌, arith, length, get_elem?, ok,
  fault,
}
use pmix_tests.Base.Int.{ℤ, pos, ◌+ℤ◌}
use pmix_tests.Base.Text.{CString, codes, str_eq}
use pmix_tests.Cli.{
  same_ns, fresh_cli, cli_init, cli_finalize, check_next, next_of, same_state, state_num,
  cli_cleanup, free_ns, cli_terminate,
}
use pmix_tests.Cli.Table.{
  no_child, test_terminated, cli_wait_all, wait_loop, reap_all, round_end, keep_waiting,
}
use pmix_tests.Options.Numbers.{to_u32, print_int, digits}
use pmix_tests.Options.Params.{init_params}
use pmix_tests.Server.Shares.{lsize}
use pmix_tests.Server.Start.{
  ServerInfo, Started, started, InitEnv, server_init, node_name, own_item, listed, after_forks,
  init_server, fork_servers, with_pipes, fork_server, wait_servers, reap_servers, wexitstatus,
  Report, srv_wait_all, waited, remove_first, is_empty, server_finalize, add_waited,
}
use pmix_tests.Server.Job.{
  Host, Job, proc_map, join, numbers, fill_seq_ranks_array, node_names, nodes_of, ranks_by_node,
  load_info, with_regex, with_ranks, set_namespace,
}
use pmix_tests.Server.Job.Agree.{of_two, set_namespace-agree}
use pmix_tests.Server.Start.Forks.{
  to_parent, to_child, Wired, items_down, succeeding, server_init-Wired,
}
use pmix_tests.Server.Start.Waits.{
  has_pid, zero_reported, any_late, srv_wait_all-verdict, server_finalize-killed,
}
use pmix_tests.Server.Shares.{base_rank, base_loop}
use pmix_tests.Server.Launch.{register_nspace, claim_ranks}
use pmix_tests.Callbacks.{at_entry, find_cli, count_finalized, finalized}
use pmix_tests.Cli.Phases.{client_step}
use pmix_tests.Driver.{
  find_pid, reap_pid, wait_signal_callback, server_launch_clients, enter_client, forked,
}
use pmix_tests.Driver.{Harness, returned, launch_loop}
use pmix_tests.Driver.Launched
use pmix_tests.Driver.Launched.{
  with_table, launched_all, launch_loop-launched_all, launch_loop-fault,
}
use pmix_tests.Driver.Main.{
  executable, finalized_called, child_signal, Env, returns, launched, launch_all, fresh, host_of,
  pmix_test_main, checked_main, after_init, add_launched, after_launch, check_launched, hang_around,
  run_callbacks, run_callback, run_turn, after_wait, after_hang, time_out, last_wait, finish,
}
use pmix_tests.Driver.Main.Verdict.{WaitsWell, pmix_test_main-verdict}

abbrev pipe_at : ℕ → ℕ → ℕ × ℕ
pipe_at k i = (k + 4 * i, k + 4 * i + 1)

abbrev pid_at : ℕ → ℕ
pid_at i = 99 + i

abbrev three : InitEnv
three =
    succeeding (pos 9) (pipe_at 3) (pipe_at 5) pid_at
      (to_parent (pos 9) (pipe_at 3) (pipe_at 5) pid_at)

server_init-Wired_example :
    (parent child : Started) × (s c : ServerInfo) × (server_init three 7 (pos 3)
      ≡ ok (started parent, lsize 7 3 0))
    × (parent.my_server_id ≡ 0)
    × (length parent.servers ≡ 3)
    × (server_init
          (succeeding
            (pos 9)
            (pipe_at 3)
            (pipe_at 5)
            pid_at
            (to_child (pos 9) (pipe_at 3) (pipe_at 5) pid_at 1))
          7
          (pos 3)
        ≡ ok (started child, lsize 7 3 1))
    × (child.my_server_id ≡ 1)
    × (child.hostname ≡ s.hostname)
    × (get_elem? parent.servers 1 ≡ some s)
    × (child.servers ≡ c ∷ [])
    × Wired (pos 9) (pipe_at 3) (pipe_at 5) pid_at 1 s c
server_init-Wired_example = server_init-Wired (pos 9) (pipe_at 3) (pipe_at 5) pid_at 7 1 0

abbrev two_reports : List Report
two_reports =
    record { pid = pos 102; status = 0; elapsed = 40 }
    ∷ record { pid = pos 101; status = 0; elapsed = 90 }
    ∷ []

two_left :
    srv_wait_all 1000 (pos 9) two_reports (items_down (pos 9) (pipe_at 3) (pipe_at 5) pid_at 3)
    ≡ waited [] 0
unfolding srv_wait_all wait_servers remove_first items_down reap_servers wexitstatus
two_left = refl

srv_wait_all-verdict_example :
    ((has_pid (pos 101) [] ≡ true) ⊎ (zero_reported (pos 101) two_reports ≡ true))
    × ((is_empty [] ≡ true) ⊎ (any_late 1000 0 two_reports ≡ true))
srv_wait_all-verdict_example =
    srv_wait_all-verdict 1000 (pos 9) (pos 101) two_reports
      (items_down (pos 9) (pipe_at 3) (pipe_at 5) pid_at 3) [] two_left
      (unfold remove_first items_down in refl)

server_finalize-killed_example :
    server_finalize
      (record {
        getpid = pos 9;
        barrier = pos 0;
        reports = record { pid = pos 101; status = 11; elapsed = 20 } ∷ [];
        pmix_server_finalize = pos 0;
      })
      (record {
        my_server_id = 0;
        servers = listed 1 (pos 101) (3, 4) (5, 6) ∷ own_item (pos 9) (7, 8) ∷ [];
        hostname = codes "node0";
      })
      0
    ≡ some (pos (0 + 0) +ℤ pos 0)
server_finalize-killed_example =
    server_finalize-killed 9 101 (own_item (pos 9) (7, 8)) (listed 1 (pos 101) (3, 4) (5, 6)) 11 20
      0 (pos 0) (λ e. grind arith) refl refl (omega arith)

abbrev smoky : CString
smoky = codes "smoky_nspace-0"

launch_loop-launched_all_example :
    launch_loop [] 2 0 smoky
      (Launched.succeeding pid_at)
      2
      0
      (with_table (cli_init 2) 0 (fresh {V = Unit} 2))
    ≡ ok (
      returned (pos (0 + 2)),
      record (with_table (launched_all pid_at 0 smoky 0 (cli_init 2)) 2 (fresh {V = Unit} 2)) {
        num_ns = 1;
      },
    )
unfolding cli_init
launch_loop-launched_all_example =
    launch_loop-launched_all [] 2 0 smoky pid_at (fresh_cli ∷ fresh_cli ∷ []) [] [] 0
      (fresh {V = Unit} 2)

-- `--ns-dist 2` on a server whose share is one process.
launch_loop-fault_example :
    launch_loop [] 2 0 smoky (Launched.succeeding pid_at) 2 0 (fresh {V = Unit} 1) ≡ fault
launch_loop-fault_example =
    launch_loop-fault [] 2 0 smoky pid_at 2 0 (fresh {V = Unit} 1) (unfold cli_init in omega arith)
      (unfold cli_init in omega arith)

abbrev one_env : Env
one_env = record {
  binary = executable;
  init =
      succeeding (pos 9) (pipe_at 3) (pipe_at 5) pid_at
        (to_parent (pos 9) (pipe_at 3) (pipe_at 5) pid_at);
  my_pid = 9;
  generate_regex = λ t. some t;
  generate_ppn = λ t. t;
  launch = λ c n. Launched.succeeding pid_at n;
  turns =
      record {
        callbacks = finalized_called smoky 0 true ∷ child_signal (100 ∷ []) ∷ [];
        late = false;
        rounds = record { reaped = []; wait_end = no_child; elapsed = 3 } ∷ [];
      }
      ∷ [];
  spawned = false;
  last_rounds = [];
  finalize = record { getpid = pos 9; barrier = pos 0; reports = []; pmix_server_finalize = pos 0 };
}

abbrev one_server : Started
one_server = record {
  my_server_id = 0;
  servers = own_item (pos 9) (pipe_at 3 0) ∷ [];
  hostname = codes "node0";
}

one_init :
    server_init one_env.init init_params.nprocs init_params.nservers ≡ ok (started one_server, 1)
unfolding server_init after_forks init_server fork_servers with_pipes fork_server lsize
one_init = refl

one_passes : pmix_test_main Unit init_params one_env ≡ ok (returns (pos 0))
unfolding pmix_test_main checked_main server_init after_init after_forks fork_servers with_pipes
    fork_server init_server launch_all server_launch_clients register_nspace claim_ranks lsize
    base_rank base_loop launch_loop forked enter_client at_entry client_step add_launched
    after_launch check_launched hang_around test_terminated run_callbacks run_callback finalized
    find_cli same_ns str_eq count_finalized cli_finalize check_next next_of same_state state_num
    wait_signal_callback find_pid reap_pid cli_cleanup free_ns cli_terminate run_turn cli_wait_all
    wait_loop reap_all round_end keep_waiting after_wait after_hang time_out last_wait finish
    server_finalize srv_wait_all wait_servers remove_first add_waited cli_init print_int digits
one_passes = refl

pmix_test_main-verdict_example :
    (n : ℤ) × (h : Harness Unit) × (launch_all init_params
        (host_of init_params one_env one_server)
        1
        one_env.launch
        (to_u32 (pos 1))
        none
        (fresh 1)
      ≡ ok (launched n h))
    × (1 ≡ to_u32 n)
    × WaitsWell one_env one_server h
pmix_test_main-verdict_example =
    pmix_test_main-verdict Unit init_params one_env one_server 1 refl one_init refl one_passes

abbrev a_host : Host
a_host = record {
  nservers = 2;
  my_server_id = 0;
  hostname = codes "node0";
  pid = 9;
  generate_regex = λ t. some t;
  generate_ppn = λ t. t;
}

abbrev job0 : Job
job0 = load_info (of_two a_host 0) 2 3 0 smoky (codes "0,1") (codes "node0,node1")

abbrev job1 : Job
job1 = load_info (of_two a_host 1) 1 3 2 smoky (codes "2") (codes "node0,node1")

job0_set : set_namespace (of_two a_host 0) (lsize 3 2 0) 3 (base_rank 3 2 0) smoky ≡ some job0
unfolding set_namespace with_ranks with_regex load_info fill_seq_ranks_array join numbers nodes_of
    node_names node_name print_int digits lsize base_rank base_loop ranks_by_node
job0_set = refl

job1_set : set_namespace (of_two a_host 1) (lsize 3 2 1) 3 (base_rank 3 2 1) smoky ≡ some job1
unfolding set_namespace with_ranks with_regex load_info fill_seq_ranks_array join numbers nodes_of
    node_names node_name print_int digits lsize base_rank base_loop ranks_by_node
job1_set = refl

set_namespace-agree_example :
    (get_elem? job0.info 4 ≡ get_elem? job1.info 4)
    × (get_elem? job0.info 5 ≡ get_elem? job1.info 5)
    × (get_elem? job0.info 5
        ≡ some (
            proc_map (
              a_host.generate_ppn (
                join b';' (
                  join b',' (numbers 0 (lsize 3 2 0))
                  ∷ join b',' (numbers (lsize 3 2 0) (lsize 3 2 1))
                  ∷ [])))))
set_namespace-agree_example = set_namespace-agree a_host 3 smoky job0 job1 job0_set job1_set
