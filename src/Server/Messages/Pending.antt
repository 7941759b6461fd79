-- ===== src/Server/Messages/Pending.antt =====
-- Server 0 while requests for a barrier or a fence are pending, and what one more request does, in
-- `server_read_cb` of unit/test_server.c.
use mathlib.Core.List.{append_assoc, append-nil}
use pmix_tests.Base.{
  ℕ, suc, ◌+◌, ◌<◌, ◌≡◌, refl, sym, ap, Option, none, some, List, [], ◌∷◌, ◌++◌, map, arith, length,
  length-append, take, take_of_le, Run, ok, ◌>>=◌, All,
}
use pmix_tests.Server.Messages.{
  Cmd, barrier_response, fence_complete, Msg, Peer, Node, Action, write, find_peer, route,
  server_send_msg, send_each, on_barrier_request, on_fence_contrib, end_fence, add_contrib,
  reset_fence, buffered,
}

pub data Request : Type 0 where
  barrier : Request
  fence : List ℕ → Request

-- The requests that server 0 reads, in the order it reads them.
unfoldable pub collect : List Request → Node → Run (Node × List Action)
collect [] node = ok (node, [])
collect (barrier ∷ rs) node = do
  (node1, sent) ← on_barrier_request node
  (node2, later) ← collect rs node1
  ok (node2, sent ++ later)
collect (fence content ∷ rs) node = do
  (node1, sent) ← on_fence_contrib content node
  (node2, later) ← collect rs node1
  ok (node2, sent ++ later)

unfoldable pub barriers : List Request → ℕ
barriers [] = 0
barriers (barrier ∷ rs) = suc (barriers rs)
barriers (fence content ∷ rs) = barriers rs

unfoldable pub contribs : List Request → List (List ℕ)
contribs [] = []
contribs (barrier ∷ rs) = contribs rs
contribs (fence content ∷ rs) = content ∷ contribs rs

unfoldable pub joined : List (List ℕ) → List ℕ
joined [] = []
joined (bs ∷ bss) = bs ++ joined bss

abbrev allocated : List ℕ → Option (List ℕ)
allocated [] = none
allocated (b ∷ bs) = some (b ∷ bs)

-- Server 0 where `m` barrier requests and these contributions to a fence have arrived.
unfoldable pub pending : ℕ → List (List ℕ) → Node → Node
pending m bss node = record node {
  my_server_id = 0;
  barrier_cnt = m;
  contrib_cnt = length bss;
  fence_buf = allocated (joined bss);
  fence_buf_offset = length (joined bss);
}

-- One message for each server, to the pipe of that server.
unfoldable pub to_all : Cmd → List ℕ → List Peer → List Action
to_all cmd content =
    map (λ p. write p.wr_fd (record { dst_id = p.idx; src_id = 0; cmd = cmd; content = content }))

-- The id of an entry leads to that entry.
abbrev pub IsRegular : List Peer → Type 0
IsRegular l = All (λ p. find_peer p.idx l ≡ some p) l

pub server_send_msg-found :
    (node : Node) (m : Msg) (p : Peer)
    → node.my_server_id ≡ 0
    → find_peer m.dst_id node.server_list ≡ some p
    → server_send_msg node m ≡ ok (write p.wr_fd m ∷ [])
unfolding server_send_msg route
server_send_msg-found node m p z h = ground arith

send_each-to_all :
    (node : Node) (cmd : Cmd) (content : List ℕ) (ps : List Peer)
    → node.my_server_id ≡ 0
    → All (λ p. find_peer p.idx node.server_list ≡ some p) ps
    → send_each node cmd content ps ≡ ok (to_all cmd content ps)
unfolding send_each to_all
send_each-to_all node cmd content [] z h = refl
send_each-to_all node cmd content (p ∷ ps) z h =
    let m : Msg = record {
      dst_id = p.idx;
      src_id = node.my_server_id;
      cmd = cmd;
      content = content;
    } in
    rw (server_send_msg-found node m p z h.0, send_each-to_all node cmd content ps z h.1)
      (ap (λ src. ok (write p.wr_fd (record m { src_id = src }) ∷ to_all cmd content ps)) z)

buffered-allocated : (bs : List ℕ) → take (length bs) (buffered (allocated bs)) ≡ bs
buffered-allocated [] = refl
buffered-allocated (b ∷ bs) = take_of_le (length (b ∷ bs)) (b ∷ bs) (omega arith)

allocated-snoc :
    (xs : List ℕ) (b : ℕ) (bs : List ℕ) → some (xs ++ b ∷ bs) ≡ allocated (xs ++ b ∷ bs)
allocated-snoc [] b bs = refl
allocated-snoc (x ∷ xs) b bs = refl

pub joined-snoc : (bss : List (List ℕ)) (bs : List ℕ) → joined (bss ++ bs ∷ []) ≡ joined bss ++ bs
unfolding joined
joined-snoc [] bs = append-nil bs
joined-snoc (cs ∷ bss) bs = rw (joined-snoc bss bs) (sym (append_assoc cs (joined bss) bs))

add_contrib-pending :
    (m : ℕ) (bss : List (List ℕ)) (bs : List ℕ) (node : Node)
    → add_contrib bs (record (pending m bss node) { contrib_cnt = length bss + 1 })
      ≡ pending m (bss ++ bs ∷ []) node
unfolding add_contrib pending
add_contrib-pending m bss [] node =
    rw (joined-snoc bss [], append-nil (joined bss), length-append bss ([] ∷ [])) refl
add_contrib-pending m bss (b ∷ bs) node =
    rw
      (
        joined-snoc bss (b ∷ bs),
        length-append bss ((b ∷ bs) ∷ []),
        length-append (joined bss) (b ∷ bs),
        buffered-allocated (joined bss),
        allocated-snoc (joined bss) b bs,
      )
      refl

pub on_barrier_request-pending :
    (m : ℕ) (bss : List (List ℕ)) (node : Node)
    → suc m < length node.server_list
    → on_barrier_request (pending m bss node) ≡ ok (pending (suc m) bss node, [])
unfolding on_barrier_request pending
on_barrier_request-pending m bss node h = ground arith

pub on_barrier_request_complete :
    (m : ℕ) (bss : List (List ℕ)) (node : Node)
    → IsRegular node.server_list
    → suc m ≡ length node.server_list
    → on_barrier_request (pending m bss node)
      ≡ ok (pending 0 bss node, to_all barrier_response [] node.server_list)
unfolding on_barrier_request pending
on_barrier_request_complete m bss node r h =
    ground
      (arith, send_each-to_all (pending m bss node) barrier_response [] node.server_list refl r)

pub end_fence-pending :
    (m : ℕ) (bss : List (List ℕ)) (node : Node)
    → length bss < length node.server_list
    → end_fence (pending m bss node) ≡ ok (pending m bss node, [])
unfolding end_fence pending
end_fence-pending m bss node h = ground arith

reset_fence-pending :
    (m : ℕ) (bss : List (List ℕ)) (node : Node)
    → reset_fence (pending m bss node) ≡ pending m [] node
unfolding reset_fence pending joined
reset_fence-pending m bss node = ground arith

pub end_fence_complete :
    (m : ℕ) (bss : List (List ℕ)) (node : Node)
    → IsRegular node.server_list
    → length bss ≡ length node.server_list
    → end_fence (pending m bss node)
      ≡ ok (pending m [] node, to_all fence_complete (joined bss) node.server_list)
unfolding end_fence pending joined
end_fence_complete m bss node r h =
    rw
      (
        buffered-allocated (joined bss),
        send_each-to_all (pending m bss node) fence_complete (joined bss) node.server_list refl r,
      )
      (ground (arith, reset_fence-pending m bss node))

pub on_fence_contrib-pending :
    (m : ℕ) (bss : List (List ℕ)) (bs : List ℕ) (node : Node)
    → on_fence_contrib bs (pending m bss node) ≡ end_fence (pending m (bss ++ bs ∷ []) node)
unfolding on_fence_contrib pending
on_fence_contrib-pending m bss bs node = ap end_fence (add_contrib-pending m bss bs node)
