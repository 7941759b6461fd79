-- ===== src/Server/Start/Forks.antt =====
-- The lists that the loop of `server_init` in unit/test_server.c leaves in the parent and in each
-- of its children, when every pipe and every fork succeeds.
use mathlib.Core.List.{append-nil, append_assoc}
use pmix_tests.Base.{
  ℕ, zero, suc, ◌+◌, ◌≡◌, refl, ap, ◌∙◌, false, some, List, [], ◌∷◌, ◌++◌, ◌==◌, arith, ==_refl,
  if◌then◌else◌, get_elem?, length, ok,
}
use pmix_tests.Base.Int.{ℤ, pos, eqb}
use pmix_tests.Base.Text.{codes}
use pmix_tests.Server.Start.{
  ServerInfo, Answers, Started, InitResult, started, child_of, listed, own_item, fork_server,
  with_pipes, fork_servers, InitEnv, after_forks, init_server, server_init,
}
use pmix_tests.Server.Shares.{lsize}

not_zero : (n : ℕ) → eqb (pos (suc n)) (pos 0) ≡ false
not_zero n = ground arith

-- A round in which `fork` returns in the parent.
module _ (getpid : ℤ) (answers : ℕ → Answers) (k pid : ℕ) (fd1 fd2 : ℕ × ℕ) where
  fork_server-parent :
      (next : List ServerInfo → InitResult) (servers : List ServerInfo)
      → (answers (suc k)).fork ≡ pos (suc pid)
      → fork_server getpid answers (suc k) fd1 fd2 next servers
        ≡ next (servers ++ listed (suc k) (pos (suc pid)) fd1 fd2 ∷ [])
  unfolding fork_server
  fork_server-parent next servers h = rw h (rw (not_zero pid) refl)

  fork_round :
      (servers : List ServerInfo)
      → answers (suc k) ≡ record { pipe1 = some fd1; pipe2 = some fd2; fork = pos (suc pid) }
      → fork_servers getpid answers (suc (suc k)) servers
        ≡ fork_servers getpid answers
            (suc k)
            (servers ++ listed (suc k) (pos (suc pid)) fd1 fd2 ∷ [])
  unfolding fork_servers with_pipes
  fork_round servers h =
      ap
        (λ a.
          with_pipes getpid answers (suc k) a.pipe1 a.pipe2 (fork_servers getpid answers (suc k))
            servers)
        h
      ∙ fork_server-parent (fork_servers getpid answers (suc k)) servers (ap (λ a. a.fork) h)

module _ (getpid : ℤ) (fd1 fd2 : ℕ → ℕ × ℕ) (pids : ℕ → ℕ) where
  -- What the parent sees: `fork` answers with the process id of the child.
  abbrev pub to_parent : ℕ → Answers
  to_parent i = record { pipe1 = some (fd1 i); pipe2 = some (fd2 i); fork = pos (suc (pids i)) }

  -- What the child that becomes server `k` sees: it is a copy of the parent up to its own fork.
  abbrev pub to_child : ℕ → ℕ → Answers
  to_child k i = record {
    pipe1 = some (fd1 i);
    pipe2 = some (fd2 i);
    fork = if i == k then pos 0 else pos (suc (pids i));
  }

  -- The parent's entry for server `i`, and its list: the servers from the last one down to itself.
  abbrev pub item : ℕ → ServerInfo
  item zero = own_item getpid (fd1 zero)
  item (suc k) = listed (suc k) (pos (suc (pids (suc k)))) (fd1 (suc k)) (fd2 (suc k))

  unfoldable pub items_down : ℕ → List ServerInfo
  items_down zero = []
  items_down (suc i) = item i ∷ items_down i

  parent_round :
      (i : ℕ) (servers : List ServerInfo)
      → fork_servers getpid to_parent (suc i) servers
        ≡ fork_servers getpid to_parent i (servers ++ item i ∷ [])
  unfolding fork_servers with_pipes fork_server
  parent_round zero servers = refl
  parent_round (suc k) servers =
      fork_round getpid to_parent k (pids (suc k)) (fd1 (suc k)) (fd2 (suc k)) servers refl

  parent_rounds :
      (n : ℕ) (servers : List ServerInfo)
      → fork_servers getpid to_parent n servers
        ≡ started (record {
          my_server_id = 0;
          servers = servers ++ items_down n;
          hostname = codes "node0";
        })
  unfolding fork_servers items_down
  parent_rounds zero servers = rw (append-nil servers) refl
  parent_rounds (suc i) servers =
      parent_round i servers
      ∙ parent_rounds i (servers ++ item i ∷ [])
      ∙ rw (append_assoc servers (item i ∷ []) (items_down i)) refl

  get-items_down : (d k : ℕ) → get_elem? (items_down (suc (d + k))) d ≡ some (item k)
  unfolding items_down
  get-items_down zero k = ap (λ i. some (item i)) (omega arith)
  get-items_down (suc d) k =
      let e : suc d + k ≡ suc (d + k) = omega arith in rw e (get-items_down d k)

  child_round :
      (k : ℕ) (servers : List ServerInfo)
      → fork_servers getpid (to_child (suc k)) (suc (suc k)) servers
        ≡ started (child_of getpid (suc k) (fd1 (suc k)) (fd2 (suc k)))
  unfolding fork_servers with_pipes fork_server
  child_round k servers = rw (==_refl (suc k)) refl

  child_rounds :
      (d k : ℕ) (servers : List ServerInfo)
      → (rest : List ServerInfo) × (fork_servers getpid (to_child (suc k)) (d + suc (suc k)) servers
          ≡ fork_servers getpid (to_child (suc k)) (suc (suc k)) rest)
  child_rounds zero k servers =
      (servers, ap (λ n. fork_servers getpid (to_child (suc k)) n servers) (omega arith))
  child_rounds (suc d) k servers =
      let i = d + suc k in
      let e : suc d + suc (suc k) ≡ suc (suc i) = omega arith in
      let f : d + suc (suc k) ≡ suc i = omega arith in
      let other : (suc i == suc k) ≡ false = ground arith in
      let (rest, h) =
        child_rounds d k
          (servers ++ listed (suc i) (pos (suc (pids (suc i)))) (fd1 (suc i)) (fd2 (suc i)) ∷ []) in
      (
        rest,
        rw e (
            fork_round getpid (to_child (suc k)) i (pids (suc i)) (fd1 (suc i)) (fd2 (suc i))
              servers (rw other refl)
            ∙ (rw f at h)),
      )

  -- The answers with which `server_init` succeeds.
  abbrev pub succeeding : (ℕ → Answers) → InitEnv
  succeeding answers = record {
    getpid = getpid;
    answers = answers;
    pmix_server_init = pos 0;
    barrier = pos 0;
  }

  server_init-started :
      (answers : ℕ → Answers) (nprocs n : ℕ) (s : Started)
      → fork_servers getpid answers (suc n) [] ≡ started s
      → server_init (succeeding answers) nprocs (pos (suc n))
        ≡ ok (started s, lsize nprocs (suc n) s.my_server_id)
  unfolding server_init after_forks init_server
  server_init-started answers nprocs n s h =
      ap (λ r. ok (after_forks (succeeding answers) nprocs (suc n) r)) h

  -- The parent's entry `s` for server `i` and the child's entry `c` for the parent: they hold the
  -- other ends of the two pipes made for server `i`.
  pub record Wired (i : ℕ) (s c : ServerInfo) : Type 0 where
    pub idx : (s.idx ≡ i) × (c.idx ≡ 0)
    pub pid : (s.pid ≡ pos (suc (pids i))) × (c.pid ≡ getpid)
    pub to_child_pipe : (c.rd_fd ≡ (fd1 i).0) × (s.wr_fd ≡ (fd1 i).1)
    pub to_parent_pipe : (s.rd_fd ≡ (fd2 i).0) × (c.wr_fd ≡ (fd2 i).1)

  length-items_down : (n : ℕ) → length (items_down n) ≡ n
  unfolding items_down
  length-items_down zero = refl
  length-items_down (suc n) = ap suc (length-items_down n)

  -- When every pipe and fork succeeds, the process that calls `server_init` for `d + k + 2` servers
  -- becomes server 0 with the share of server 0 and lists that many servers. The child of the fork
  -- for server `k + 1` gets that id and its share, and lists one server. The child's entry and the
  -- entry `d` of the parent name each other's process and hold the other ends of the same two pipes.
  pub server_init-Wired :
      (nprocs d k : ℕ)
      → (parent child : Started) × (s c : ServerInfo) × (server_init
            (succeeding to_parent)
            nprocs
            (pos (suc (d + suc k)))
          ≡ ok (started parent, lsize nprocs (suc (d + suc k)) 0))
        × (parent.my_server_id ≡ 0)
        × (length parent.servers ≡ suc (d + suc k))
        × (server_init (succeeding (to_child (suc k))) nprocs (pos (suc (d + suc k)))
            ≡ ok (started child, lsize nprocs (suc (d + suc k)) (suc k)))
        × (child.my_server_id ≡ suc k)
        × (child.hostname ≡ s.hostname)
        × (get_elem? parent.servers d ≡ some s)
        × (child.servers ≡ c ∷ [])
        × Wired (suc k) s c
  server_init-Wired nprocs d k =
      let (rest, h) = child_rounds d k [] in
      let e : d + suc (suc k) ≡ suc (d + suc k) = omega arith in
      let child = child_of getpid (suc k) (fd1 (suc k)) (fd2 (suc k)) in
      (
        record {
          my_server_id = 0;
          servers = items_down (suc (d + suc k));
          hostname = codes "node0";
        },
        child,
        item (suc k),
        record {
          hostname = child.hostname;
          idx = 0;
          pid = getpid;
          rd_fd = (fd1 (suc k)).0;
          wr_fd = (fd2 (suc k)).1;
        },
        server_init-started to_parent nprocs (d + suc k) _ (parent_rounds (suc (d + suc k)) []),
        refl,
        length-items_down (suc (d + suc k)),
        server_init-started (to_child (suc k)) nprocs (d + suc k) _
            ((rw e at h) ∙ child_round k rest),
        refl,
        refl,
        get-items_down d (suc k),
        refl,
        record {
          idx = (refl, refl);
          pid = (refl, refl);
          to_child_pipe = (refl, refl);
          to_parent_pipe = (refl, refl);
        },
      )
