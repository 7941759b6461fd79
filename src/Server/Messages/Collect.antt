-- ===== src/Server/Messages/Collect.antt =====
-- How server 0 collects the barrier and fence requests of all servers, in the `CMD_BARRIER_REQUEST`
-- and `CMD_FENCE_CONTRIB` cases of `server_read_cb` in unit/test_server.c.
use mathlib.Core.List.{append_assoc, append-nil}
use pmix_tests.Base.{
  ℕ, suc, ◌+◌, ◌<◌, ◌≡◌, refl, sym, ap, ◌∙◌, List, [], ◌∷◌, ◌++◌, arith, length, length-append, Run,
  ok, fault, out_of_fuel, ◌>>=◌,
}
use pmix_tests.Server.Messages.{barrier_response, fence_complete, Node, Action}
use pmix_tests.Server.Messages.Pending.{
  Request, collect, barriers, contribs, joined, pending, to_all, IsRegular, joined-snoc,
  on_barrier_request-pending, on_barrier_request_complete, end_fence-pending, end_fence_complete,
  on_fence_contrib-pending, barrier, fence,
}

nothing-more : (x : Run (Node × List Action)) → (do (node, sent) ← x; ok (node, [] ++ sent)) ≡ x
nothing-more (ok x) = refl
nothing-more fault = refl
nothing-more out_of_fuel = refl

collect-pending :
    (m : ℕ) (bss : List (List ℕ)) (rs qs : List Request) (node : Node)
    → m + barriers rs < length node.server_list
    → length bss + length (contribs rs) < length node.server_list
    → collect (rs ++ qs) (pending m bss node)
      ≡ collect qs (pending (m + barriers rs) (bss ++ contribs rs) node)
unfolding collect barriers contribs
collect-pending m bss [] qs node hb hf =
    rw (append-nil bss) (ap (λ k. collect qs (pending k bss node)) (omega arith))
collect-pending m bss (barrier ∷ rs) qs node hb hf =
    rw
      (
        on_barrier_request-pending m bss node (omega arith),
        nothing-more (collect (rs ++ qs) (pending (suc m) bss node)),
        collect-pending (suc m) bss rs qs node (omega arith) hf,
      )
      (ap (λ k. collect qs (pending k (bss ++ contribs rs) node)) (omega arith))
collect-pending m bss (fence bs ∷ rs) qs node hb hf =
    let e = length-append bss (bs ∷ []) in
    rw
      (
        on_fence_contrib-pending m bss bs node,
        end_fence-pending m (bss ++ bs ∷ []) node (omega arith),
        nothing-more (collect (rs ++ qs) (pending m (bss ++ bs ∷ []) node)),
        collect-pending m (bss ++ bs ∷ []) rs qs node hb (omega arith),
        append_assoc bss (bs ∷ []) (contribs rs),
      )
      refl

collect-more :
    (rs qs : List Request) (node : Node)
    → barriers rs < length node.server_list
    → length (contribs rs) < length node.server_list
    → collect (rs ++ qs) (pending 0 [] node) ≡ collect qs (pending (barriers rs) (contribs rs) node)
collect-more rs qs node hb hf =
    collect-pending 0 [] rs qs node (omega arith) (omega arith)
    ∙ ap (λ k. collect qs (pending k (contribs rs) node)) (omega arith)

-- Requests of both kinds, in any order, of which each kind is of fewer servers than there are:
-- server 0 sends nothing, has counted the barrier requests and the contributions, and has kept the
-- contributed bytes in the order they came.
pub collect-waits :
    (rs : List Request) (node : Node)
    → barriers rs < length node.server_list
    → length (contribs rs) < length node.server_list
    → collect rs (pending 0 [] node) ≡ ok (pending (barriers rs) (contribs rs) node, [])
unfolding collect
collect-waits rs node hb hf =
    ap (λ l. collect l (pending 0 [] node)) (sym (append-nil rs)) ∙ collect-more rs [] node hb hf

-- When the barrier request of the last server comes, after requests of both kinds in any order,
-- server 0 answers each server once, and only the barrier starts again: a fence that has not
-- completed keeps its contributions.
pub collect-barrier :
    (rs : List Request) (node : Node)
    → IsRegular node.server_list
    → suc (barriers rs) ≡ length node.server_list
    → length (contribs rs) < length node.server_list
    → collect (rs ++ barrier ∷ []) (pending 0 [] node)
      ≡ ok (pending 0 (contribs rs) node, to_all barrier_response [] node.server_list)
unfolding collect
collect-barrier rs node r hb hf =
    collect-more rs (barrier ∷ []) node (omega arith) hf
    ∙ rw (on_barrier_request_complete (barriers rs) (contribs rs) node r hb)
        (ap (λ l. ok (pending 0 (contribs rs) node, l)) (append-nil _))

-- When the contribution of the last server comes, after requests of both kinds in any order, server
-- 0 sends each server one message with the contributions of all servers, joined in the order they
-- came, and only the fence starts again: a barrier that has not completed keeps its count.
pub collect-fence :
    (rs : List Request) (bs : List ℕ) (node : Node)
    → IsRegular node.server_list
    → barriers rs < length node.server_list
    → suc (length (contribs rs)) ≡ length node.server_list
    → collect (rs ++ fence bs ∷ []) (pending 0 [] node)
      ≡ ok (
        pending (barriers rs) [] node,
        to_all fence_complete (joined (contribs rs) ++ bs) node.server_list,
      )
unfolding collect
collect-fence rs bs node r hb hf =
    let e = length-append (contribs rs) (bs ∷ []) in
    collect-more rs (fence bs ∷ []) node hb (omega arith)
    ∙ rw
        (
          on_fence_contrib-pending (barriers rs) (contribs rs) bs node,
          end_fence_complete (barriers rs) (contribs rs ++ bs ∷ []) node r (omega arith),
          joined-snoc (contribs rs) bs,
        )
        (ap (λ l. ok (pending (barriers rs) [] node, l)) (append-nil _))
