-- ===== src/Server/Requests/Alone.antt =====
-- `fencenb_fn` of unit/server_callbacks.c where there is only server 0, beside the messages of
-- unit/test_server.c that it saves.
use mathlib.Core.List.{append-nil}
use pmix_tests.Base.{
  ℕ, ◌≡◌, refl, sym, ap, subst, ◌∙◌, some, List, [], ◌∷◌, arith, ==_refl, length, ok,
}
use pmix_tests.Base.Status.{success}
use pmix_tests.Server.Messages.{
  fence_contrib, fence_complete, Peer, Node, write, call_modex, find_peer, route, upstream,
  contribute, server_fence_contrib, on_fence_contrib,
}
use pmix_tests.Server.Messages.Pending.{
  server_send_msg-found, pending, to_all, IsRegular, joined, on_fence_contrib-pending,
  end_fence_complete,
}
use pmix_tests.Server.Requests.{call, call_back, dispatch, server_read_cb, fencenb_fn}
use pmix_tests.Server.Requests.Direct.{keeps, to_hub, completion, receives, set_modex-spoke}

find_peer-only : (p : Peer) → find_peer p.idx (p ∷ []) ≡ some p
unfolding find_peer
find_peer-only p = ground (arith, ==_refl p.idx)

find_peer-alone :
    (node : Node) (p : Peer)
    → node.server_list ≡ p ∷ []
    → p.idx ≡ 0
    → find_peer 0 node.server_list ≡ some p
unfolding find_peer
find_peer-alone node p l z = rw (l, z) refl

route-alone :
    (node : Node) (p : Peer) (m : ℕ)
    → node.server_list ≡ p ∷ []
    → p.idx ≡ 0
    → route 0 (pending m [] node) ≡ some p
unfolding route pending
route-alone node p m l z = find_peer-alone node p l z

-- Server 0, the only one, keeps the callback in its own entry and writes to itself.
server_fence_contrib-alone :
    (node : Node) (p : Peer) (content : List ℕ) (cb m : ℕ)
    → node.server_list ≡ p ∷ []
    → p.idx ≡ 0
    → server_fence_contrib content cb (pending m [] node)
      ≡ ok (
        pending m [] (keeps node p cb),
        write p.wr_fd (to_hub (pending m [] node) fence_contrib content) ∷ [],
      )
unfolding server_fence_contrib contribute upstream pending
server_fence_contrib-alone node p content cb m l z =
    rw
      (
        route-alone node p m l z,
        server_send_msg-found (pending m [] node) (to_hub (pending m [] node) fence_contrib content)
            p refl (find_peer-alone node p l z),
        set_modex-spoke cb p node.server_list l,
      )
      refl

on_fence_contrib-alone :
    (node : Node) (p : Peer) (content : List ℕ) (m : ℕ)
    → node.server_list ≡ p ∷ []
    → on_fence_contrib content (pending m [] node)
      ≡ ok (
        pending m [] node,
        write p.wr_fd
              (record { dst_id = p.idx; src_id = 0; cmd = fence_complete; content = content })
            ∷ [],
      )
unfolding to_all joined
on_fence_contrib-alone node p content m l =
    on_fence_contrib-pending m [] content node
    ∙ end_fence_complete m (content ∷ []) node (subst IsRegular (sym l) (find_peer-only p, tt))
        (ap length (sym l))
    ∙ rw (l, append-nil content) refl

module _ (max_nslen : ℕ) where
  -- Where there is only server 0, `fencenb_fn` calls the callback with the data of the caller, and
  -- the node is left as it was. The messages that it saves would have called the same callback with
  -- the same data: the contribution that server 0 writes to itself completes the fence, and the
  -- completion calls the callback that was kept.
  pub fence-alone :
      (node : Node) (p : Peer) (content : List ℕ) (cb m : ℕ)
      → node.server_list ≡ p ∷ []
      → p.idx ≡ 0
      → (fencenb_fn content cb (pending m [] node)
          ≡ ok (pending m [] node, call_modex cb content ∷ [], success))
        × (server_fence_contrib content cb (pending m [] node)
            ≡ ok (
              pending m [] (keeps node p cb),
              write p.wr_fd (to_hub (pending m [] node) fence_contrib content) ∷ [],
            ))
        × (server_read_cb max_nslen
              (record p { modex_cb = some cb })
              (some (to_hub (pending m [] node) fence_contrib content))
              (pending m [] (keeps node p cb))
            ≡ ok (
              pending m [] (keeps node p cb),
              write p.wr_fd (completion (pending m [] node) content) ∷ [],
            ))
        × (server_read_cb max_nslen
              (record p { modex_cb = some cb })
              (some (completion (pending m [] node) content))
              (pending m [] (keeps node p cb))
            ≡ ok (pending m [] (keeps node p cb), call_modex cb content ∷ []))
  unfolding pending dispatch call_back call fencenb_fn
  fence-alone node p content cb m l z = (
    rw l refl,
    server_fence_contrib-alone node p content cb m l z,
    receives max_nslen (pending m [] (keeps node p cb)) (record p { modex_cb = some cb })
          (to_hub (pending m [] node) fence_contrib content) refl
        ∙ on_fence_contrib-alone (keeps node p cb) (record p { modex_cb = some cb }) content m refl
        ∙ ap
            (λ id. ok (
              pending m [] (keeps node p cb),
              write p.wr_fd (record (completion (pending m [] node) content) { dst_id = id }) ∷ [],
            ))
            z,
    receives max_nslen (pending m [] (keeps node p cb)) (record p { modex_cb = some cb })
        (completion (pending m [] node) content) refl,
  )
