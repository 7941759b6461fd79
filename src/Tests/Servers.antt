-- ===== src/Tests/Servers.antt =====
-- The shares of the servers and their messages, in unit/test_server.c, on small inputs.
use pmix_tests.Base.{◌⊎◌, ℕ, ◌+◌, ◌≡◌, refl, ◌<◌, none, some, List, [], ◌∷◌, ◌++◌, arith, ok}
use pmix_tests.Base.Text.{CString, str_eq}
use pmix_tests.Base.Status.{success}
use pmix_tests.Server.Shares.{Owned, lsize_owner}
use pmix_tests.Server.Procs.{ServerNspace, server_unpack_procs}
use pmix_tests.Server.Procs.Merge.{IsSent}
use pmix_tests.Server.Procs.Exchange.{sent_all, merge_msgs, server_unpack_procs-sent}
use pmix_tests.Server.Messages.{
  barrier_response, fence_complete, Peer, Node, write, call_modex, dmodex_request, fence_contrib,
  find_peer, server_fence_contrib,
}
use pmix_tests.Server.Messages.Pending.{
  Request, barrier, fence, collect, barriers, contribs, joined, pending, to_all,
}
use pmix_tests.Server.Messages.Collect.{collect-barrier, collect-fence}
use pmix_tests.Server.Requests.{
  get_owner, server_find_id, server_dmdx_get, server_read_cb, fencenb_fn,
}
use pmix_tests.Server.Requests.Direct.{keeps, to_hub, completion, request, request-arrives}
use pmix_tests.Server.Requests.Alone.{fence-alone}

lsize_owner_example : (id : ℕ) × (id < 3) × Owned 7 3 5 id × ((1 ≡ id) ⊎ (¬ (Owned 7 3 5 1)))
lsize_owner_example = lsize_owner 7 3 5 1 (omega arith) (omega arith)

abbrev job : CString
job = 106 ∷ 98 ∷ []

-- Three ranks, of which server 1 runs the first and the last.
abbrev job_nspace : ServerNspace
job_nspace = record { name = job; ntasks = 3; ltasks = 2; task_map = some 1 ∷ none ∷ some 1 ∷ [] }

abbrev tasks : CString → ℕ
tasks name = 3

job-IsSent : IsSent 4 tasks 1 job_nspace
job-IsSent = record {
  name_fits = omega arith;
  name_bytes = (omega arith, (omega arith, tt));
  agreed = refl;
  whole = refl;
  few = omega arith;
  counted = refl;
}

server_unpack_procs-sent_example :
    server_unpack_procs 4 (sent_all 4 tasks ((1, job_nspace ∷ []) ∷ [])) []
    ≡ ok (merge_msgs 4 tasks ((1, job_nspace ∷ []) ∷ []) [])
server_unpack_procs-sent_example =
    server_unpack_procs-sent 4 tasks ((1, job_nspace ∷ []) ∷ []) []
      ((omega arith, omega arith, (job-IsSent, tt)), tt) tt

abbrev peer : ℕ → Peer
peer i = record { idx = i; wr_fd = 10 + i; modex_cb = none }

abbrev node : ℕ → List Peer → Node
node id peers = record {
  my_server_id = id;
  server_list = peers;
  barrier_cnt = 0;
  contrib_cnt = 0;
  fence_buf = none;
  fence_buf_offset = 0;
}

abbrev hub : Node
hub = node 0 (peer 2 ∷ peer 1 ∷ peer 0 ∷ [])

abbrev requests : List Request
requests = fence (1 ∷ []) ∷ barrier ∷ fence (2 ∷ 3 ∷ []) ∷ barrier ∷ []

collect-barrier_example :
    collect (requests ++ barrier ∷ []) (pending 0 [] hub)
    ≡ ok (
      pending 0 ((1 ∷ []) ∷ (2 ∷ 3 ∷ []) ∷ []) hub,
      to_all barrier_response [] (peer 2 ∷ peer 1 ∷ peer 0 ∷ []),
    )
unfolding barriers contribs find_peer
collect-barrier_example = collect-barrier requests hub (refl, (refl, (refl, tt))) refl (omega arith)

collect-fence_example :
    collect (requests ++ fence (4 ∷ []) ∷ []) (pending 0 [] hub)
    ≡ ok (
      pending 2 [] hub,
      to_all fence_complete (1 ∷ 2 ∷ 3 ∷ 4 ∷ []) (peer 2 ∷ peer 1 ∷ peer 0 ∷ []),
    )
unfolding barriers contribs find_peer joined
collect-fence_example =
    collect-fence requests (4 ∷ []) hub (refl, (refl, (refl, tt))) (omega arith) refl

abbrev src : Node
src = node 1 (peer 0 ∷ [])

abbrev dst : Node
dst = node 2 (peer 0 ∷ [])

-- Server 1 has learnt that server 2 runs rank 1 of the job.
abbrev known : List ServerNspace
known = record job_nspace { task_map = some 1 ∷ some 2 ∷ some 1 ∷ [] } ∷ []

request-arrives_example :
    (server_dmdx_get 4 job 1 77 known src
      ≡ ok (keeps src (peer 0) 77, write 10 (request 4 1 2 job 1) ∷ [], success))
    × (server_read_cb 4 (peer 1) (some (request 4 1 2 job 1)) hub
        ≡ ok (hub, write 12 (request 4 1 2 job 1) ∷ []))
    × (server_read_cb 4 (peer 0) (some (request 4 1 2 job 1)) dst
        ≡ ok (dst, dmodex_request 1 job 1 ∷ []))
unfolding find_peer server_find_id str_eq get_owner
request-arrives_example =
    request-arrives 4 src hub dst (peer 0) (peer 1) (peer 2) (peer 0) job 1 77 known (omega arith)
      refl refl (omega arith) refl refl (omega arith) (omega arith) (omega arith)
      (omega arith, (omega arith, tt))

abbrev alone : Node
alone = node 0 (peer 0 ∷ [])

fence-alone_example :
    (fencenb_fn (9 ∷ []) 55 (pending 0 [] alone)
      ≡ ok (pending 0 [] alone, call_modex 55 (9 ∷ []) ∷ [], success))
    × (server_fence_contrib (9 ∷ []) 55 (pending 0 [] alone)
        ≡ ok (
          pending 0 [] (keeps alone (peer 0) 55),
          write 10 (to_hub (pending 0 [] alone) fence_contrib (9 ∷ [])) ∷ [],
        ))
    × (server_read_cb 4
          (record (peer 0) { modex_cb = some 55 })
          (some (to_hub (pending 0 [] alone) fence_contrib (9 ∷ [])))
          (pending 0 [] (keeps alone (peer 0) 55))
        ≡ ok (
          pending 0 [] (keeps alone (peer 0) 55),
          write 10 (completion (pending 0 [] alone) (9 ∷ [])) ∷ [],
        ))
    × (server_read_cb 4
          (record (peer 0) { modex_cb = some 55 })
          (some (completion (pending 0 [] alone) (9 ∷ [])))
          (pending 0 [] (keeps alone (peer 0) 55))
        ≡ ok (pending 0 [] (keeps alone (peer 0) 55), call_modex 55 (9 ∷ []) ∷ []))
fence-alone_example = fence-alone 4 alone (peer 0) (9 ∷ []) 55 0 refl refl
