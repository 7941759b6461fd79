-- ===== src/Server/Messages.antt =====
-- The messages between the servers, in unit/test_server.c: `server_send_msg`, `server_fwd_msg`,
-- `server_barrier`, `server_fence_contrib`, and the two cases of `server_read_cb` that collect the
-- requests of all servers. A `Node` is one server process: its globals, and the static variables of
-- `server_read_cb`. What a call does outside of the node is a list of `Action`s. Messages are read
-- and written whole, and ids and sizes are not negative numbers; `abort()`, a call of a NULL
-- function and a list that should not be empty are `fault`. A server waits for the answer to a
-- barrier outside of these functions.
use pmix_tests.Base.{
  ℕ, ◌+◌, Bool, Option, none, some, List, [], ◌∷◌, ◌++◌, ◌==◌, if◌then◌else◌, length, take, Run, ok,
  fault, ◌>>=◌,
}
use pmix_tests.Base.Text.{CString}
use pmix_tests.Base.Status.{Status, success, error}
pub mod Pending
pub mod Collect

pub data Cmd : Type 0 where
  barrier_request barrier_response fence_contrib fence_complete dmdx_request dmdx_response : Cmd

-- `msg_hdr_t` with the data that follow it; the field `size` is the length of the data.
pub record Msg : Type 0 where
  pub dst_id : ℕ
  pub src_id : ℕ
  pub cmd : Cmd
  pub content : List ℕ

-- `server_info_t`: `modex_cbfunc` and `cbdata` are one token, none while NULL.
pub record Peer : Type 0 where
  pub idx : ℕ
  pub wr_fd : ℕ
  pub modex_cb : Option ℕ

pub record Node : Type 0 where
  pub my_server_id : ℕ
  pub server_list : List Peer
  pub barrier_cnt : ℕ
  pub contrib_cnt : ℕ
  pub fence_buf : Option (List ℕ)
  pub fence_buf_offset : ℕ

pub data Action : Type 0 where
  write : ℕ → Msg → Action
  wakeup : ℕ → Action
  call_modex : ℕ → List ℕ → Action
  dmodex_request : ℕ → CString → ℕ → Action
  modex_error : ℕ → Action

-- The loop that looks for the server with an id.
unfoldable pub find_peer : ℕ → List Peer → Option Peer
find_peer id [] = none
find_peer id (p ∷ ps) = if p.idx == id then some p else find_peer id ps

abbrev pub first_peer : List Peer → Option Peer
first_peer [] = none
first_peer (p ∷ ps) = some p

-- The peer for a message to `dst`: server 0 looks for it, the others write to server 0.
unfoldable pub route : ℕ → Node → Option Peer
route dst node =
    if node.my_server_id == 0 then find_peer dst node.server_list else first_peer node.server_list

write_to : Option Peer → Msg → Run (List Action)
write_to none m = fault
write_to (some p) m = ok (write p.wr_fd m ∷ [])

unfoldable pub server_send_msg : Node → Msg → Run (List Action)
unfolding write_to
server_send_msg node m = write_to (route m.dst_id node) m

unfoldable pub server_fwd_msg : Node → Msg → List Action × Status
server_fwd_msg node m = elim (find_peer m.dst_id node.server_list) [
  | none ↦ ([], error)
  | some p ↦ (write p.wr_fd m ∷ [], success)
]

-- One message to each server of the list.
unfoldable pub send_each : Node → Cmd → List ℕ → List Peer → Run (List Action)
send_each node cmd content [] = ok []
send_each node cmd content (p ∷ ps) = do
  sent ←
      server_send_msg node
        (record { dst_id = p.idx; src_id = node.my_server_id; cmd = cmd; content = content })
  rest ← send_each node cmd content ps
  ok (sent ++ rest)

unfoldable pub on_barrier_request : Node → Run (Node × List Action)
on_barrier_request node =
    let cnt = node.barrier_cnt + 1 in
    if length node.server_list == cnt
    then (do
      sent ← send_each node barrier_response [] node.server_list
      ok (record node { barrier_cnt = 0 }, sent))
    else ok (record node { barrier_cnt = cnt }, [])

-- The bytes of the buffer, none where the pointer is NULL.
abbrev pub buffered : Option (List ℕ) → List ℕ
buffered none = []
buffered (some bs) = bs

-- `realloc` and `memcpy` to the offset, for a message that is not empty.
unfoldable pub add_contrib : List ℕ → Node → Node
add_contrib [] node = node
add_contrib (b ∷ bs) node = record node {
  fence_buf = some (take node.fence_buf_offset (buffered node.fence_buf) ++ b ∷ bs);
  fence_buf_offset = node.fence_buf_offset + length (b ∷ bs);
}

-- The buffer is released, if there is one, and the counter starts again.
unfoldable pub reset_fence : Node → Node
reset_fence node = elim node.fence_buf [
  | none ↦ record node { contrib_cnt = 0 }
  | some _ ↦ record node { contrib_cnt = 0; fence_buf = none; fence_buf_offset = 0 }
]

-- All servers have contributed: the buffer is sent to each of them.
unfoldable pub end_fence : Node → Run (Node × List Action)
end_fence node =
    if length node.server_list == node.contrib_cnt
    then (do
      sent ←
          send_each node fence_complete (take node.fence_buf_offset (buffered node.fence_buf))
            node.server_list
      ok (reset_fence node, sent))
    else ok (node, [])

unfoldable pub on_fence_contrib : List ℕ → Node → Run (Node × List Action)
on_fence_contrib content node =
    end_fence (add_contrib content (record node { contrib_cnt = node.contrib_cnt + 1 }))

-- `my_server_info` for server 0, which is its own entry of the list, and the first peer for the
-- others.
unfoldable pub upstream : Node → Option Peer
upstream node = route 0 node

unfoldable pub server_barrier : Node → Run (List Action)
server_barrier node = elim (upstream node) [
  | none ↦ fault
  | some _ ↦
      server_send_msg node
        (record { dst_id = 0; src_id = node.my_server_id; cmd = barrier_request; content = [] })
]

-- `cb` is kept in the entry with this id.
unfoldable pub set_modex : ℕ → ℕ → List Peer → List Peer
set_modex idx cb [] = []
set_modex idx cb (p ∷ ps) =
    let rest = set_modex idx cb ps in
    if p.idx == idx then record p { modex_cb = some cb } ∷ ps else p ∷ rest

unfoldable pub contribute : List ℕ → ℕ → Option Peer → Node → Run (Node × List Action)
contribute content cb none node = fault
contribute content cb (some server) node = do
  sent ←
      server_send_msg node
        (record { dst_id = 0; src_id = node.my_server_id; cmd = fence_contrib; content = content })
  ok (record node { server_list = set_modex server.idx cb node.server_list }, sent)

unfoldable pub server_fence_contrib : List ℕ → ℕ → Node → Run (Node × List Action)
server_fence_contrib content cb node = contribute content cb (upstream node) node
