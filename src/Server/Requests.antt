-- ===== src/Server/Requests.antt =====
-- The direct modex between the servers: in unit/test_server.c `server_find_id`, `server_pack_dmdx`,
-- `server_unpack_dmdx`, `server_dmdx_get`, `_dmdx_cb` and all of `server_read_cb`, and in
-- unit/server_callbacks.c `fencenb_fn` and `dmodex_fn`. A rank is not negative.
use pmix_tests.Base.{
  ℕ, ◌+◌, Bool, ◌&&◌, Option, none, some, List, [], ◌∷◌, ◌++◌, ◌==◌, if◌then◌else◌, length,
  get_elem?, Run, ok, fault, ◌>>=◌,
}
use pmix_tests.Base.Text.{CString, str_eq}
use pmix_tests.Base.Status.{Status, success, error, err_not_found}
use pmix_tests.Server.Bytes.{int_size, put, put_name, read, read_name}
use pmix_tests.Server.Procs.{ServerNspace}
use pmix_tests.Server.Messages.{
  Cmd, barrier_request, barrier_response, fence_contrib, fence_complete, dmdx_request,
  dmdx_response, Msg, Peer, Node, Action, wakeup, call_modex, dmodex_request, modex_error, route,
  server_send_msg, server_fwd_msg, on_barrier_request, on_fence_contrib, set_modex,
  server_fence_contrib,
}
pub mod Direct
pub mod Alone

unfoldable pub get_owner : Option (Option ℕ) → Run (Option ℕ)
get_owner none = fault
get_owner (some owner) = ok owner

-- `server_find_id`: the id of the server that runs a rank, none for -1; a rank past the end of
-- the task map is read out of bounds.
unfoldable pub server_find_id : CString → ℕ → List ServerNspace → Run (Option ℕ)
server_find_id nspace rank [] = ok none
server_find_id nspace rank (t ∷ ts) =
    let here = get_owner (get_elem? t.task_map rank) in
    let later = server_find_id nspace rank ts in if str_eq t.name nspace then here else later

call : Option ℕ → List ℕ → Node → Run (Node × List Action)
call none content node = fault
call (some cb) content node = ok (node, call_modex cb content ∷ [])

-- `server->modex_cbfunc(PMIX_SUCCESS, ...)`
unfoldable pub call_back : Peer → List ℕ → Node → Run (Node × List Action)
unfolding call
call_back server content node = call server.modex_cb content node

module _ (max_nslen : ℕ) where
  unfoldable pub server_pack_dmdx : ℕ → CString → ℕ → List ℕ
  server_pack_dmdx sender_id nspace rank =
      put int_size sender_id ++ (put_name (max_nslen + 1) nspace ++ put int_size rank)

  unfoldable pub server_unpack_dmdx : List ℕ → Run (ℕ × CString × ℕ)
  server_unpack_dmdx bs = do
    (sender, bs1) ← read int_size bs
    (nspace, bs2) ← read_name (max_nslen + 1) bs1
    (rank, bs3) ← read int_size bs2
    ok (sender, nspace, rank)

  unfoldable pub on_dmdx_request : List ℕ → Node → Run (Node × List Action)
  on_dmdx_request [] node = fault
  on_dmdx_request (b ∷ bs) node = do
    (sender, nspace, rank) ← server_unpack_dmdx (b ∷ bs)
    ok (node, dmodex_request sender nspace rank ∷ [])

  -- The `switch` of `server_read_cb`, for a message that came from `server`.
  unfoldable pub dispatch : Peer → Cmd → List ℕ → Node → Run (Node × List Action)
  dispatch server barrier_request content node = on_barrier_request node
  dispatch server barrier_response content node = ok (node, wakeup server.idx ∷ [])
  dispatch server fence_contrib content node = on_fence_contrib content node
  dispatch server fence_complete content node = call_back server content node
  dispatch server dmdx_request content node = on_dmdx_request content node
  dispatch server dmdx_response content node = call_back server content node

  -- `none`: nothing could be read.
  unfoldable pub server_read_cb : Peer → Option Msg → Node → Run (Node × List Action)
  server_read_cb server none node = ok (node, [])
  server_read_cb server (some m) node =
      if node.my_server_id == m.dst_id
      then dispatch server m.cmd m.content node
      else ok (node, (server_fwd_msg node m).0)

  -- The request to the server `dst`, over the peer that was found for it.
  unfoldable pub request_over :
      CString → ℕ → ℕ → ℕ → Option Peer → Node → Run (Node × List Action × Status)
  request_over nspace rank cb dst none node = ok (node, modex_error cb ∷ [], error)
  request_over nspace rank cb dst (some server) node = do
    sent ← server_send_msg node (record {
      dst_id = dst;
      src_id = node.my_server_id;
      cmd = dmdx_request;
      content = server_pack_dmdx node.my_server_id nspace rank;
    })
    ok (record node { server_list = set_modex server.idx cb node.server_list }, sent, success)

  unfoldable pub request_from :
      CString → ℕ → ℕ → Option ℕ → Node → Run (Node × List Action × Status)
  request_from nspace rank cb none node = ok (node, modex_error cb ∷ [], error)
  request_from nspace rank cb (some dst) node =
      request_over nspace rank cb dst (route dst node) node

  unfoldable pub server_dmdx_get :
      CString → ℕ → ℕ → List ServerNspace → Node → Run (Node × List Action × Status)
  server_dmdx_get nspace rank cb known node = do
    found ← server_find_id nspace rank known
    request_from nspace rank cb found node

  unfoldable pub dmodex_fn :
      CString → ℕ → ℕ → List ServerNspace → Node → Run (Node × List Action × Status)
  dmodex_fn nspace rank cb known node =
      if (length node.server_list == 1) && (node.my_server_id == 0)
      then ok (node, [], err_not_found)
      else server_dmdx_get nspace rank cb known node

-- `_dmdx_cb`: the answer to a request goes back to its sender.
unfoldable pub dmdx_cb : ℕ → List ℕ → Node → Run (List Action)
dmdx_cb sender_id content node = server_send_msg node (record {
  dst_id = sender_id;
  src_id = node.my_server_id;
  cmd = dmdx_response;
  content = content;
})

-- `fencenb_fn`, with the callback that the PMIx server library passes.
unfoldable pub fencenb_fn : List ℕ → ℕ → Node → Run (Node × List Action × Status)
fencenb_fn content cb node =
    if (length node.server_list == 1) && (node.my_server_id == 0)
    then ok (node, call_modex cb content ∷ [], success)
    else (do (node', sent) ← server_fence_contrib content cb node; ok (node', sent, success))
