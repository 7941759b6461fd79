-- ===== src/Server/Requests/Direct.antt =====
-- A direct modex request and its answer, on the way from a server over server 0 to the server that
-- runs the rank and back: `server_dmdx_get`, `server_read_cb` and `_dmdx_cb` of unit/test_server.c.
use mathlib.Core.List.{append-nil}
use pmix_tests.Base.{
  ℕ, ◌+◌, ◌^◌, ◌≤◌, ◌<◌, ◌≡◌, ◌≢◌, refl, sym, ap, ◌∙◌, some, List, [], ◌∷◌, ◌++◌, arith, length, ok,
}
use pmix_tests.Base.Text.{CString}
use pmix_tests.Base.Status.{success}
use pmix_tests.Server.Bytes.{int_size, put, put_name, read, read-put, read_name-put_name, NonZero}
use pmix_tests.Server.Procs.{ServerNspace}
use pmix_tests.Server.Messages.{
  Cmd, dmdx_request, dmdx_response, fence_contrib, fence_complete, Msg, Peer, Node, write,
  call_modex, dmodex_request, find_peer, route, upstream, set_modex, server_send_msg,
  server_fwd_msg, contribute, server_fence_contrib,
}
use pmix_tests.Server.Requests.{
  server_find_id, call, call_back, server_pack_dmdx, server_unpack_dmdx, on_dmdx_request, dispatch,
  server_read_cb, request_from, request_over, server_dmdx_get, dmdx_cb,
}

abbrev pub answer : Node → Node → List ℕ → Msg
answer src dst content = record {
  dst_id = src.my_server_id;
  src_id = dst.my_server_id;
  cmd = dmdx_response;
  content = content;
}

abbrev pub keeps : Node → Peer → ℕ → Node
keeps src up cb = record src { server_list = record up { modex_cb = some cb } ∷ [] }

abbrev pub to_hub : Node → Cmd → List ℕ → Msg
to_hub src cmd content = record {
  dst_id = 0;
  src_id = src.my_server_id;
  cmd = cmd;
  content = content;
}

abbrev pub completion : Node → List ℕ → Msg
completion src joined = record {
  dst_id = src.my_server_id;
  src_id = 0;
  cmd = fence_complete;
  content = joined;
}

server_send_msg-spoke :
    (node : Node) (m : Msg) (p : Peer)
    → node.my_server_id ≢ 0
    → node.server_list ≡ p ∷ []
    → server_send_msg node m ≡ ok (write p.wr_fd m ∷ [])
unfolding server_send_msg route
server_send_msg-spoke node m p z e = ground arith

route-spoke :
    (node : Node) (id : ℕ) (p : Peer)
    → node.my_server_id ≢ 0
    → node.server_list ≡ p ∷ []
    → route id node ≡ some p
unfolding route
route-spoke node id p z e = ground arith

pub set_modex-spoke :
    (cb : ℕ) (p : Peer) (l : List Peer)
    → l ≡ p ∷ []
    → set_modex p.idx cb l ≡ record p { modex_cb = some cb } ∷ []
unfolding set_modex
set_modex-spoke cb p l e = ground arith

module _ (max_nslen : ℕ) where
  -- A request is read as it was packed, for ids and ranks of an `int` and a name that fits.
  pub server_unpack_dmdx-pack :
      (sender rank : ℕ) (nspace : CString)
      → sender < 256 ^ 4
      → rank < 256 ^ 4
      → length nspace ≤ max_nslen
      → NonZero nspace
      → server_unpack_dmdx max_nslen (server_pack_dmdx max_nslen sender nspace rank)
        ≡ ok (sender, nspace, rank)
  unfolding server_unpack_dmdx server_pack_dmdx
  server_unpack_dmdx-pack sender rank nspace hs hr hn hz =
      let last : read int_size (put int_size rank) ≡ ok (rank, []) =
        ap (read int_size) (sym (append-nil (put int_size rank))) ∙ read-put int_size rank [] hr in
      rw
        (
          read-put int_size sender (put_name (max_nslen + 1) nspace ++ put int_size rank) hs,
          read_name-put_name (max_nslen + 1) nspace (put int_size rank) (omega arith) hz,
          last,
        )
        refl

  abbrev pub request : ℕ → ℕ → CString → ℕ → Msg
  request src dst nspace rank = record {
    dst_id = dst;
    src_id = src;
    cmd = dmdx_request;
    content = server_pack_dmdx max_nslen src nspace rank;
  }

  forwards :
      (hub : Node) (from to : Peer) (m : Msg)
      → hub.my_server_id ≡ 0
      → m.dst_id ≢ 0
      → find_peer m.dst_id hub.server_list ≡ some to
      → server_read_cb max_nslen from (some m) hub ≡ ok (hub, write to.wr_fd m ∷ [])
  unfolding server_read_cb server_fwd_msg
  forwards hub from to m z d f = ground arith

  pub receives :
      (node : Node) (from : Peer) (m : Msg)
      → m.dst_id ≡ node.my_server_id
      → server_read_cb max_nslen from (some m) node ≡ dispatch max_nslen from m.cmd m.content node
  unfolding server_read_cb
  receives node from m e = ground arith

  on_dmdx_request-pack :
      (sender rank : ℕ) (nspace : CString) (node : Node)
      → sender < 256 ^ 4
      → rank < 256 ^ 4
      → length nspace ≤ max_nslen
      → NonZero nspace
      → on_dmdx_request max_nslen (server_pack_dmdx max_nslen sender nspace rank) node
        ≡ ok (node, dmodex_request sender nspace rank ∷ [])
  unfolding on_dmdx_request server_pack_dmdx put
  on_dmdx_request-pack sender rank nspace node hs hr hn hz =
      rw (server_unpack_dmdx-pack sender rank nspace hs hr hn hz) refl

  server_dmdx_get-spoke :
      (src : Node) (up : Peer) (nspace : CString) (rank cb dst : ℕ) (known : List ServerNspace)
      → src.my_server_id ≢ 0
      → src.server_list ≡ up ∷ []
      → server_find_id nspace rank known ≡ ok (some dst)
      → server_dmdx_get max_nslen nspace rank cb known src
        ≡ ok (
          record src { server_list = record up { modex_cb = some cb } ∷ [] },
          write up.wr_fd (request src.my_server_id dst nspace rank) ∷ [],
          success,
        )
  unfolding server_dmdx_get request_from request_over
  server_dmdx_get-spoke src up nspace rank cb dst known s u k =
      rw
        (
          k,
          route-spoke src dst up s u,
          server_send_msg-spoke src (request src.my_server_id dst nspace rank) up s u,
          set_modex-spoke cb up src.server_list u,
        )
        refl

  -- A server other than 0, whose only peer is server 0, asks for a rank that another one of them
  -- runs. It keeps the callback and writes one message; server 0 passes that message on to the
  -- server that runs the rank, unchanged; and that server asks its PMIx server library for the rank
  -- of the namespace that was asked for, in the name of the server that asked. Ids and the rank fit
  -- in an `int`, the name fits in its array.
  pub request-arrives :
      (src hub dst : Node) (up from to spoke : Peer) (nspace : CString) (rank cb : ℕ)
      → (known : List ServerNspace) → src.my_server_id ≢ 0
      → src.server_list ≡ up ∷ []
      → hub.my_server_id ≡ 0
      → dst.my_server_id ≢ 0
      → find_peer dst.my_server_id hub.server_list ≡ some to
      → server_find_id nspace rank known ≡ ok (some dst.my_server_id)
      → src.my_server_id < 256 ^ 4
      → rank < 256 ^ 4
      → length nspace ≤ max_nslen
      → NonZero nspace
      → (server_dmdx_get max_nslen nspace rank cb known src
          ≡ ok (
            record src { server_list = record up { modex_cb = some cb } ∷ [] },
            write up.wr_fd (request src.my_server_id dst.my_server_id nspace rank) ∷ [],
            success,
          ))
        × (server_read_cb max_nslen from
              (some (request src.my_server_id dst.my_server_id nspace rank))
              hub
            ≡ ok (hub, write to.wr_fd (request src.my_server_id dst.my_server_id nspace rank) ∷ []))
        × (server_read_cb max_nslen spoke
              (some (request src.my_server_id dst.my_server_id nspace rank))
              dst
            ≡ ok (dst, dmodex_request src.my_server_id nspace rank ∷ []))
  unfolding dispatch
  request-arrives src hub dst up from to spoke nspace rank cb known s u z d f k hs hr hn hz = (
    server_dmdx_get-spoke src up nspace rank cb dst.my_server_id known s u k,
    forwards hub from to (request src.my_server_id dst.my_server_id nspace rank) z d f,
    receives dst spoke (request src.my_server_id dst.my_server_id nspace rank) refl
        ∙ on_dmdx_request-pack src.my_server_id rank nspace dst hs hr hn hz,
  )

  -- The answer of a server other than 0 to a server other than 0 goes back over server 0: one
  -- message, which server 0 passes on unchanged, and the data reach the callback that the server
  -- which asked keeps in its entry for server 0.
  pub answer-arrives :
      (src hub dst : Node) (up back from to : Peer) (content : List ℕ) (cb : ℕ)
      → src.my_server_id ≢ 0
      → hub.my_server_id ≡ 0
      → dst.my_server_id ≢ 0
      → dst.server_list ≡ back ∷ []
      → find_peer src.my_server_id hub.server_list ≡ some to
      → up.modex_cb ≡ some cb
      → (dmdx_cb src.my_server_id content dst ≡ ok (write back.wr_fd (answer src dst content) ∷ []))
        × (server_read_cb max_nslen from (some (answer src dst content)) hub
            ≡ ok (hub, write to.wr_fd (answer src dst content) ∷ []))
        × (server_read_cb max_nslen up (some (answer src dst content)) src
            ≡ ok (src, call_modex cb content ∷ []))
  unfolding dmdx_cb dispatch call_back call
  answer-arrives src hub dst up back from to content cb s z d b f c = (
    server_send_msg-spoke dst (answer src dst content) back d b,
    forwards hub from to (answer src dst content) z s f,
    receives src up (answer src dst content) refl ∙ rw c refl,
  )

  -- In a server other than 0, a direct modex request that starts before a fence has completed
  -- replaces the callback of the fence, since both keep theirs in the entry for server 0: when the
  -- fence completes, its data go to the callback of the request.
  pub fence-loses_callback :
      (src : Node) (up : Peer) (nspace : CString) (rank fence_cb cb dst : ℕ)
      → (content joined : List ℕ) (known : List ServerNspace) → src.my_server_id ≢ 0
      → src.server_list ≡ up ∷ []
      → server_find_id nspace rank known ≡ ok (some dst)
      → (server_fence_contrib content fence_cb src
          ≡ ok (keeps src up fence_cb, write up.wr_fd (to_hub src fence_contrib content) ∷ []))
        × (server_dmdx_get max_nslen nspace rank cb known (keeps src up fence_cb)
            ≡ ok (
              keeps src up cb,
              write up.wr_fd (request src.my_server_id dst nspace rank) ∷ [],
              success,
            ))
        × (server_read_cb max_nslen
              (record up { modex_cb = some cb })
              (some (completion src joined))
              (keeps src up cb)
            ≡ ok (keeps src up cb, call_modex cb joined ∷ []))
  unfolding server_fence_contrib contribute upstream dispatch call_back call
  fence-loses_callback src up nspace rank fence_cb cb dst content joined known s u k = (
    rw
        (
          route-spoke src 0 up s u,
          server_send_msg-spoke src (to_hub src fence_contrib content) up s u,
          set_modex-spoke fence_cb up src.server_list u,
        )
        refl,
    server_dmdx_get-spoke (keeps src up fence_cb) (record up { modex_cb = some fence_cb }) nspace
        rank cb dst known s refl k,
    receives (keeps src up cb) (record up { modex_cb = some cb }) (completion src joined) refl,
  )
