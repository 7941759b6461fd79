-- ===== src/Server/Procs.antt =====
-- `server_pack_procs` and `server_unpack_procs` of unit/test_server.c: each server tells the others
-- which ranks of each namespace it runs. An entry of `task_map` is the id of a server, or `none`
-- for the -1 that `memset` writes; ids and ranks are not negative. `server_pack_procs` is called
-- with an empty buffer only, so its parameter `size` is 0 here. `max_nslen` is PMIX_MAX_NSLEN.
pub mod Ranks
pub mod Merge
pub mod Exchange
use pmix_tests.Base.{
  ℕ, zero, suc, ◌+◌, ◌*◌, Bool, true, false, Option, none, some, List, [], ◌∷◌, ◌++◌, ltb, ◌==◌,
  if◌then◌else◌, length, get_elem?, set, take, replicate, Run, ok, fault, out_of_fuel, ◌>>=◌,
}
use pmix_tests.Base.Text.{CString, str_eq}
use pmix_tests.Server.Bytes.{int_size, size_t_size, put, put_name, read, read_name}

pub record ServerNspace : Type 0 where
  pub name : CString
  pub ntasks : ℕ
  pub ltasks : ℕ
  pub task_map : List (Option ℕ)

-- `task_map[i] == server_id`
abbrev pub runs_on : ℕ → Option ℕ → Bool
runs_on server_id none = false
runs_on server_id (some s) = s == server_id

-- The loop that packs the ranks of a server, from rank `i` on.
unfoldable pub pack_ranks : ℕ → ℕ → List (Option ℕ) → List ℕ
pack_ranks server_id i [] = []
pack_ranks server_id i (t ∷ ts) =
    let rest = pack_ranks server_id (suc i) ts in
    if runs_on server_id t then put int_size i ++ rest else rest

-- The loop that reads `ltasks` ranks into a task map: the first server that claims a rank keeps it.
unfoldable pub unpack_ranks : ℕ → ℕ → List ℕ → List (Option ℕ) → Run (List (Option ℕ) × List ℕ)
unpack_ranks server_id zero bs task_map = ok (task_map, bs)
unpack_ranks server_id (suc n) bs task_map = do
  (rank, bs') ← read int_size bs
  elim (get_elem? task_map rank) [
    | none ↦ fault
    | some (some owner) ↦ unpack_ranks server_id n bs' task_map
    | some none ↦ unpack_ranks server_id n bs' (set task_map rank (some server_id))
  ]

-- The part of `server_unpack_procs` that reads the ranks into a namespace.
abbrev pub claim : ℕ → ℕ → List ℕ → ServerNspace → Run (ServerNspace × List ℕ)
claim server_id ltasks bs ns = do
  (task_map, bs') ← unpack_ranks server_id ltasks bs ns.task_map
  ok (record ns { task_map = task_map }, bs')

-- What the code adds to `buf_size` for the namespaces, the names first.
ranks_size : List ServerNspace → ℕ
ranks_size [] = 0
ranks_size (ns ∷ nss) =
    (int_size + size_t_size + size_t_size + int_size * ns.ltasks) + ranks_size nss

module _ (max_nslen : ℕ) where
  unfoldable pub pack_nspace : ℕ → ServerNspace → List ℕ
  pack_nspace server_id ns =
      put int_size server_id
      ++ (put_name (max_nslen + 1) ns.name
          ++ (put size_t_size ns.ntasks
              ++ (put size_t_size ns.ltasks ++ pack_ranks server_id 0 ns.task_map)))

  unfoldable pub pack_nspaces : ℕ → List ServerNspace → List ℕ
  pack_nspaces server_id [] = []
  pack_nspaces server_id (ns ∷ nss) = pack_nspace server_id ns ++ pack_nspaces server_id nss

  unfoldable pub buf_size : List ServerNspace → ℕ
  unfolding ranks_size
  buf_size nss = size_t_size + (max_nslen + 1) * length nss + ranks_size nss

  -- The assertion at the end is that the bytes written are those allocated.
  unfoldable pub server_pack_procs : ℕ → List ServerNspace → Run (List ℕ)
  server_pack_procs server_id nss =
      if length nss == 0
      then ok []
      else let buf = put size_t_size (length nss) ++ pack_nspaces server_id nss in
        if length buf == buf_size nss then ok buf else fault

  -- The namespace of that name is updated, or a new one is appended.
  unfoldable pub update_nspace :
      CString
      → ℕ
      → ℕ
      → (ServerNspace → Run (ServerNspace × List ℕ))
      → List ServerNspace
      → Run (List ServerNspace × List ℕ)
  update_nspace nspace ntasks ltasks f [] = do
    (ns, bs) ← f (record {
      name = take max_nslen nspace;
      ntasks = ntasks;
      ltasks = ltasks;
      task_map = replicate ntasks none;
    })
    ok (ns ∷ [], bs)
  update_nspace nspace ntasks ltasks f (t ∷ ts) =
      let here = (do (ns, bs) ← f t; ok (ns ∷ ts, bs)) in
      let later = (do (nss, bs) ← update_nspace nspace ntasks ltasks f ts; ok (t ∷ nss, bs)) in
      if str_eq nspace t.name then (if t.ntasks == ntasks then here else fault) else later

  unfoldable pub unpack_nspace : List ℕ → List ServerNspace → Run (List ServerNspace × List ℕ)
  unpack_nspace bs nss = do
    (server_id, bs1) ← read int_size bs
    (nspace, bs2) ← read_name (max_nslen + 1) bs1
    (ntasks, bs3) ← read size_t_size bs2
    (ltasks, bs4) ← read size_t_size bs3
    update_nspace nspace ntasks ltasks (claim server_id ltasks bs4) nss

  unfoldable pub unpack_nspaces : ℕ → List ℕ → List ServerNspace → Run (List ServerNspace × List ℕ)
  unpack_nspaces zero bs nss = ok (nss, bs)
  unpack_nspaces (suc n) bs nss = do (nss', bs') ← unpack_nspace bs nss; unpack_nspaces n bs' nss'

  -- The loop `while ((size_t)(ptr - buf) < size)`, on fuel.
  unfoldable pub unpack_loop : ℕ → List ℕ → List ServerNspace → Run (List ServerNspace)
  unpack_loop fuel [] nss = ok nss
  unpack_loop zero (b ∷ bs) nss = out_of_fuel
  unpack_loop (suc fuel) (b ∷ bs) nss = do
    (ns_count, bs1) ← read size_t_size (b ∷ bs)
    (nss', bs2) ← unpack_nspaces ns_count bs1 nss
    unpack_loop fuel bs2 nss'

  -- Each round of the loop reads a byte at least.
  unfoldable pub server_unpack_procs : List ℕ → List ServerNspace → Run (List ServerNspace)
  unfolding unpack_loop
  server_unpack_procs bs nss = unpack_loop (length bs) bs nss
