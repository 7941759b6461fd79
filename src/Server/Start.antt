-- ===== src/Server/Start.antt =====
-- The servers of unit/test_server.c as processes: `server_init`, which forks them and lists them,
-- and the end of a server, `remove_server_item`, `srv_wait_all` and `server_finalize`. The event
-- handlers that `server_init` registers with libevent and with the PMIx library are not kept.
pub mod Forks
pub mod Waits
use pmix_tests.Base.{
  ℕ, zero, suc, ◌+◌, ◌/◌, ◌%◌, Bool, true, false, ◌&&◌, not, Option, none, some, List, [], ◌∷◌,
  ◌++◌, ◌==◌, leb, if◌then◌else◌, Run, ok, fault,
}
use pmix_tests.Base.Int.{ℤ, pos, negsuc, eqb, is_negative, ◌+ℤ◌}
use pmix_tests.Base.Text.{CString, codes}
use pmix_tests.Options.Numbers.{print_int}
use pmix_tests.Server.Shares.{lsize}

-- The fields of `server_info_t` that `server_init` writes.
pub record ServerInfo : Type 0 where
  pub hostname : CString
  pub idx : ℕ
  pub pid : ℤ
  pub rd_fd : ℕ
  pub wr_fd : ℕ

-- The system's answers in one round of the loop of `server_init`: the two ends of each pipe, none
-- where `pipe` fails, and what `fork` returns.
pub record Answers : Type 0 where
  pub pipe1 : Option (ℕ × ℕ)
  pub pipe2 : Option (ℕ × ℕ)
  pub fork : ℤ

-- A server: its id, the list of the servers that it talks to, and its own host name.
pub record Started : Type 0 where
  pub my_server_id : ℕ
  pub servers : List ServerInfo
  pub hostname : CString

pub data InitResult : Type 0 where
  started : Started → InitResult
  failed : ℤ → InitResult

-- "node%d"
unfoldable pub node_name : ℕ → CString
node_name i = codes "node" ++ print_int (pos i)

-- What the child that becomes server `i` has: the parent alone in its list.
abbrev pub child_of : ℤ → ℕ → ℕ × ℕ → ℕ × ℕ → Started
child_of getppid i fd1 fd2 = record {
  my_server_id = i;
  servers =
      record { hostname = node_name i; idx = 0; pid = getppid; rd_fd = fd1.0; wr_fd = fd2.1 } ∷ [];
  hostname = node_name i;
}

abbrev pub listed : ℕ → ℤ → ℕ × ℕ → ℕ × ℕ → ServerInfo
listed i pid fd1 fd2 = record {
  hostname = node_name i;
  idx = i;
  pid = pid;
  rd_fd = fd2.0;
  wr_fd = fd1.1;
}

abbrev pub own_item : ℤ → ℕ × ℕ → ServerInfo
own_item getpid fd1 = record {
  hostname = codes "node0";
  idx = 0;
  pid = getpid;
  rd_fd = fd1.0;
  wr_fd = fd1.1;
}

module _ (getpid : ℤ) (answers : ℕ → Answers) where
  -- What follows the two pipes in the round of server `i`; `next` are the rounds behind it.
  unfoldable pub fork_server :
      ℕ → ℕ × ℕ → ℕ × ℕ → (List ServerInfo → InitResult) → List ServerInfo → InitResult
  fork_server zero fd1 fd2 next servers = next (servers ++ own_item getpid fd1 ∷ [])
  fork_server (suc k) fd1 fd2 next servers =
      let pid = (answers (suc k)).fork in
      if is_negative pid
      then failed pid
      else if eqb pid (pos 0)
      then started (child_of getpid (suc k) fd1 fd2)
      else next (servers ++ listed (suc k) pid fd1 fd2 ∷ [])

  unfoldable pub with_pipes :
      ℕ
      → Option (ℕ × ℕ)
      → Option (ℕ × ℕ)
      → (List ServerInfo → InitResult)
      → List ServerInfo
      → InitResult
  with_pipes i (some fd1) (some fd2) next servers = fork_server i fd1 fd2 next servers
  with_pipes i _ _ next servers = failed (negsuc 0)

  -- `for (i = params->nservers - 1; i >= 0; i--)`. The process id of the parent, which a child gets
  -- from `getppid`, is `getpid`.
  unfoldable pub fork_servers : ℕ → List ServerInfo → InitResult
  fork_servers zero servers =
      started (record { my_server_id = 0; servers = servers; hostname = codes "node0" })
  fork_servers (suc i) servers =
      with_pipes i (answers i).pipe1 (answers i).pipe2 (fork_servers i) servers

-- Which results `server_init` gets from the PMIx library and from `server_barrier`.
pub record InitEnv : Type 0 where
  pub getpid : ℤ
  pub answers : ℕ → Answers
  pub pmix_server_init : ℤ
  pub barrier : ℤ

-- What follows the loop: PMIx_server_init, and the barrier of all servers.
unfoldable pub init_server : InitEnv → ℕ → ℕ → Started → InitResult × ℕ
init_server e nprocs nservers s =
    let share = lsize nprocs nservers s.my_server_id in
    if not (eqb e.pmix_server_init (pos 0))
    then (failed e.pmix_server_init, share)
    else if not (eqb e.barrier (pos 0))
    then (failed e.barrier, share)
    else (started s, share)

unfoldable pub after_forks : InitEnv → ℕ → ℕ → InitResult → InitResult × ℕ
after_forks e nprocs nservers (failed rc) = (failed rc, 0)
after_forks e nprocs nservers (started s) = init_server e nprocs nservers s

-- `server_init` and the new `params->lsize`, which is 0 before; fewer than one server is a division
-- by zero.
unfoldable pub server_init : InitEnv → ℕ → ℤ → Run (InitResult × ℕ)
server_init e nprocs (negsuc n) = fault
server_init e nprocs (pos zero) = fault
server_init e nprocs (pos (suc n)) =
    ok (after_forks e nprocs (suc n) (fork_servers e.getpid e.answers (suc n) []))

-- The first server with a process id is taken out of the list.
unfoldable pub remove_first : ℤ → List ServerInfo → List ServerInfo
remove_first pid [] = []
remove_first pid (s ∷ ss) = if eqb s.pid pid then ss else s ∷ remove_first pid ss

-- One answer of `waitpid`, with its status, and the time since the start once it is handled.
pub record Report : Type 0 where
  pub pid : ℤ
  pub status : ℕ
  pub elapsed : ℕ

-- `WEXITSTATUS(status)`
unfoldable pub wexitstatus : ℕ → ℕ
wexitstatus status = status / 256 % 256

-- The loop over the list in `srv_wait_all`: the servers left, and the sum of the exit statuses.
unfoldable pub reap_servers : Report → List ServerInfo → ℕ → List ServerInfo × ℕ
reap_servers r [] ret = ([], ret)
reap_servers r (s ∷ ss) ret =
    let gone = reap_servers r ss (ret + wexitstatus r.status) in
    let kept = reap_servers r ss ret in if eqb s.pid r.pid then gone else (s ∷ kept.0, kept.1)

abbrev pub is_empty : List ServerInfo → Bool
is_empty [] = true
is_empty (s ∷ ss) = false

-- A negative answer of `waitpid` reaps nothing.
abbrev pub reap_report : Report → List ServerInfo → ℕ → List ServerInfo × ℕ
reap_report r servers ret = if is_negative r.pid then (servers, ret) else reap_servers r servers ret

-- How `srv_wait_all` ends: with its sum and the servers that it did not see end, or still in
-- `waitpid` when there are no more reports.
pub data WaitEnd : Type 0 where
  waited : List ServerInfo → ℕ → WaitEnd
  blocked : WaitEnd

unfoldable pub wait_servers : ℕ → ℕ → List Report → List ServerInfo → ℕ → WaitEnd
wait_servers timeout elapsed [] servers ret =
    if not (is_empty servers) && leb elapsed timeout then blocked else waited servers ret
wait_servers timeout elapsed (r ∷ rs) servers ret =
    let after = reap_report r servers ret in
    let rest = wait_servers timeout r.elapsed rs after.0 after.1 in
    if not (is_empty servers) && leb elapsed timeout then rest else waited servers ret

unfoldable pub srv_wait_all : ℕ → ℤ → List Report → List ServerInfo → WaitEnd
srv_wait_all timeout getpid reports servers =
    wait_servers timeout 0 reports (remove_first getpid servers) 0

-- What `server_finalize` gets from the barrier, the servers it waits for and the PMIx library.
pub record FinalizeEnv : Type 0 where
  pub getpid : ℤ
  pub barrier : ℤ
  pub reports : List Report
  pub pmix_server_finalize : ℤ

-- The total that it returns; none while it waits for servers.
unfoldable pub add_waited : ℕ → ℤ → WaitEnd → Option ℤ
add_waited fails rc blocked = none
add_waited fails rc (waited left ret) = some (pos (fails + ret) +ℤ rc)

-- `server_finalize`; the timeout is 10 seconds, in microseconds.
unfoldable pub server_finalize : FinalizeEnv → Started → ℕ → Option ℤ
server_finalize e s local_fail =
    if not (eqb e.barrier (pos 0))
    then some (pos (local_fail + 1))
    else if s.my_server_id == 0
    then add_waited local_fail e.pmix_server_finalize
        (srv_wait_all 10000000 e.getpid e.reports s.servers)
    else some (pos local_fail +ℤ e.pmix_server_finalize)
