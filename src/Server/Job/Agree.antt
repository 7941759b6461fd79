-- ===== src/Server/Job/Agree.antt =====
-- What two servers of unit/test_server.c tell the PMIx library of one namespace.
use pmix_tests.Base.{
  ℕ, zero, suc, ◌+◌, ◌-◌, ◌≡◌, refl, sym, ap, ◌∙◌, inl, inr, none, some, [], ◌∷◌, arith,
  Option-cases, leb, get_elem?, length, Bool-cases, ◌*◌,
}
use pmix_tests.Base.Text.{CString}
use pmix_tests.Server.Shares.{lsize, base_rank, base_rank_tiles}
use pmix_tests.Server.Start.{node_name}
use pmix_tests.Server.Job.{
  node_map, proc_map, Job, join, numbers, fill_seq_ranks_array, nodes_of, ranks_by_node,
  max_digit_len, Host, load_info, with_regex, with_ranks, set_namespace,
}

none_ne : (ranks : CString) → none ≡ some ranks → ⊥
none_ne ranks h = grind arith

some_inj : (a b : CString) → some a ≡ some b → a ≡ b
some_inj a b h = grind arith

-- The text is that of the ranks, one behind the other.
fill-text :
    (n base : ℕ) (ranks : CString)
    → fill_seq_ranks_array n base ≡ some ranks
    → ranks ≡ join b',' (numbers base n)
unfolding fill_seq_ranks_array
fill-text zero base ranks h = absurd (grind arith)
fill-text (suc n) base ranks h =
    let text = join b',' (numbers base (suc n)) in
    elim (Bool-cases (leb (suc n * (max_digit_len + 1) - 1) (length text))) [
      | inl e ↦ absurd (none_ne ranks (rw e at h))
      | inr e ↦ sym (some_inj text ranks (rw e at h))
    ]

-- The shares of two servers.
two_shares :
    (nprocs : ℕ)
    → (base_rank nprocs 2 0 ≡ 0)
      × (base_rank nprocs 2 1 ≡ lsize nprocs 2 0)
      × (nprocs - (0 + lsize nprocs 2 0) ≡ lsize nprocs 2 1)
two_shares nprocs =
    let (z, next, _) = base_rank_tiles nprocs 2 0 (omega arith) in
    let (_, last, total) = base_rank_tiles nprocs 2 1 (omega arith) in
    let first : base_rank nprocs 2 1 ≡ lsize nprocs 2 0 = omega (arith, z, next) in
    (z, first, omega (arith, first, last, total))

-- The two servers of a job that all its processes share give the library the same map from nodes
-- to ranks: the ranks of server 0, a semicolon and those of server 1.
pub ranks_by_node-agree :
    (nprocs : ℕ) (ranks0 ranks1 : CString)
    → fill_seq_ranks_array (lsize nprocs 2 0) (base_rank nprocs 2 0) ≡ some ranks0
    → fill_seq_ranks_array (lsize nprocs 2 1) (base_rank nprocs 2 1) ≡ some ranks1
    → (ranks_by_node 2 0 (lsize nprocs 2 0) nprocs (base_rank nprocs 2 0) ranks0
        ≡ join b';' (ranks0 ∷ ranks1 ∷ []))
      × (ranks_by_node 2 1 (lsize nprocs 2 1) nprocs (base_rank nprocs 2 1) ranks1
          ≡ join b';' (ranks0 ∷ ranks1 ∷ []))
unfolding ranks_by_node
ranks_by_node-agree nprocs ranks0 ranks1 h0 h1 =
    let (z, first, rest) = two_shares nprocs in
    let zero_first : 0 + lsize nprocs 2 0 ≡ lsize nprocs 2 0 = omega arith in
    let t0 = fill-text (lsize nprocs 2 0) 0 ranks0 (rw z at h0) in
    let t1 = fill-text (lsize nprocs 2 1) (lsize nprocs 2 0) ranks1 (rw first at h1) in
    (rw z (rw rest (rw (zero_first, t1) refl)), rw first (rw t0 refl))

no_job : (job : Job) → none ≡ some job → ⊥
no_job job h = grind arith

job_inj : (a b : Job) → some a ≡ some b → a ≡ b
job_inj a b h = grind arith

-- What a registered namespace shows: the text of its ranks, and the regular expression of its nodes.
registered :
    (host : Host) (local univ_size base : ℕ) (name : CString) (job : Job)
    → set_namespace host local univ_size base name ≡ some job
    → (ranks regex : CString) × (fill_seq_ranks_array local base ≡ some ranks)
      × (host.generate_regex (join b',' (nodes_of host.nservers host.hostname)) ≡ some regex)
      × (load_info host local univ_size base name ranks regex ≡ job)
unfolding set_namespace with_ranks with_regex
registered host local univ_size base name job h =
    elim (Option-cases (fill_seq_ranks_array local base)) [
      | inl e ↦ absurd (no_job job (rw e at h))
      | inr (ranks, e) ↦
          elim (Option-cases
            (host.generate_regex (join b',' (nodes_of host.nservers host.hostname)))) [
              | inl g ↦ absurd (no_job job (rw (e, g) at h))
              | inr (regex, g) ↦ (ranks, regex, e, g, job_inj _ _ (rw (e, g) at h))
            ]
    ]

-- The server `id` of two.
abbrev pub of_two : Host → ℕ → Host
of_two host id = record host { nservers = 2; my_server_id = id; hostname = node_name id }

-- Two servers that share all processes of a job and both register its namespace give the library
-- the same node map and the same process map, which is made from the ranks of server 0, a semicolon
-- and those of server 1.
pub set_namespace-agree :
    (host : Host) (nprocs : ℕ) (name : CString) (job0 job1 : Job)
    → set_namespace (of_two host 0) (lsize nprocs 2 0) nprocs (base_rank nprocs 2 0) name
      ≡ some job0
    → set_namespace (of_two host 1) (lsize nprocs 2 1) nprocs (base_rank nprocs 2 1) name
      ≡ some job1
    → (get_elem? job0.info 4 ≡ get_elem? job1.info 4)
      × (get_elem? job0.info 5 ≡ get_elem? job1.info 5)
      × (get_elem? job0.info 5
          ≡ some (
              proc_map (
                host.generate_ppn (
                  join b';' (
                    join b',' (numbers 0 (lsize nprocs 2 0))
                    ∷ join b',' (numbers (lsize nprocs 2 0) (lsize nprocs 2 1))
                    ∷ [])))))
unfolding load_info nodes_of
set_namespace-agree host nprocs name job0 job1 h0 h1 =
    let (r0, x0, f0, g0, e0) = registered (of_two host 0) _ nprocs _ name job0 h0 in
    let (r1, x1, f1, g1, e1) = registered (of_two host 1) _ nprocs _ name job1 h1 in
    let (z, first, _) = two_shares nprocs in
    let map = λ (t : CString). some (proc_map (host.generate_ppn t)) in
    let (a0, a1) = ranks_by_node-agree nprocs r0 r1 f0 f1 in
    let p0 = sym (ap (λ j. get_elem? j.info 5) e0) ∙ ap map a0 in
    let p1 = sym (ap (λ j. get_elem? j.info 5) e1) ∙ ap map a1 in
    let t0 =
      fill-text (lsize nprocs 2 0) _ r0 f0 ∙ ap (λ b. join b',' (numbers b (lsize nprocs 2 0))) z in
    let t1 =
      fill-text (lsize nprocs 2 1) _ r1 f1
      ∙ ap (λ b. join b',' (numbers b (lsize nprocs 2 1))) first in
    (
      sym (ap (λ j. get_elem? j.info 4) e0)
          ∙ ap (λ x. some (node_map x)) (some_inj x0 x1 (sym g0 ∙ g1))
          ∙ ap (λ j. get_elem? j.info 4) e1,
      p0 ∙ sym p1,
      p0
          ∙ ap map (ap (λ a. join b';' (a ∷ r1 ∷ [])) t0)
          ∙ ap map (ap (λ b. join b';' (join b',' (numbers 0 (lsize nprocs 2 0)) ∷ b ∷ [])) t1),
    )
