-- ===== src/Tests/Launch.antt =====
-- Two servers of unit/test_server.c that launch a job of three processes.
use pmix_tests.Base.{◌≡◌, refl, none, some, [], ◌∷◌, arith, ok, ◌>>=◌}
use pmix_tests.Base.Text.{codes}
use pmix_tests.Server.Shares.{lsize, base_loop, base_rank}
use pmix_tests.Server.Procs.{server_unpack_procs}
use pmix_tests.Server.Procs.Exchange.{sent_all}
use pmix_tests.Server.Requests.{server_find_id}
use pmix_tests.Server.Launch.{claim_ranks, share_map, claim_ranks-share}
use pmix_tests.Server.Launch.Maps.{entry}
use pmix_tests.Server.Launch.Found.{messages, server_find_id-exchanged}

claim_ranks-share_example :
    claim_ranks 2 1 7 (none ∷ none ∷ none ∷ none ∷ []) ≡ ok (share_map 1 2 1 7)
claim_ranks-share_example = claim_ranks-share 1 2 1 7

-- Server 0 learns that server 1 runs the last rank.
server_find_id-exchanged_example :
    (server_unpack_procs 4
        (sent_all 4 (λ _. 3) (messages (codes "ns") 3 2 (1 ∷ [])))
        (entry (codes "ns") 3 2 0 ∷ [])
      >>= server_find_id (codes "ns") 2)
    ≡ ok (some 1)
unfolding base_rank base_loop lsize
server_find_id-exchanged_example =
    server_find_id-exchanged (codes "ns") 3 2 4 0 1 2 (1 ∷ []) (omega arith)
      ((omega arith, omega arith), tt) (omega arith) (omega arith, omega arith) refl (omega arith)
      (omega arith, (omega arith, tt)) (omega arith)
