-- ===== src/Server/Job.antt =====
-- What a server tells the PMIx library of a namespace: `fill_seq_ranks_array` and `set_namespace` of
-- unit/test_server.c. PMIx_generate_regex, which may fail, and PMIx_generate_ppn are parameters.
pub mod Agree
use pmix_tests.Base.{
  ℕ, zero, suc, ◌+◌, ◌-◌, ◌*◌, Option, none, some, List, [], ◌∷◌, ◌++◌, ◌==◌, leb, if◌then◌else◌,
  length,
}
use pmix_tests.Base.Int.{pos}
use pmix_tests.Base.Text.{CString}
use pmix_tests.Options.Numbers.{print_int}
use pmix_tests.Server.Start.{node_name}

-- The values that are loaded; `app_num` gets the process id.
pub data Attribute : Type 0 where
  job_size : ℕ → Attribute
  is_spawned : ℕ → Attribute
  local_size : ℕ → Attribute
  local_peers : CString → Attribute
  node_map : CString → Attribute
  proc_map : CString → Attribute
  app_num : ℕ → Attribute

-- What PMIx_server_register_nspace is called with.
pub record Job : Type 0 where
  pub name : CString
  pub local_procs : ℕ
  pub info : List Attribute

-- `pmix_argv_join`
unfoldable pub join : ℕ → List CString → CString
join sep [] = []
join sep (t ∷ []) = t
join sep (t ∷ u ∷ us) = t ++ sep ∷ join sep (u ∷ us)

-- The texts of `n` numbers from `base` on.
unfoldable pub numbers : ℕ → ℕ → List CString
numbers base zero = []
numbers base (suc n) = print_int (pos base) ∷ numbers (suc base) n

abbrev pub max_digit_len : ℕ
max_digit_len = 10

-- The text, if it fits; none for no process.
unfoldable pub fill_seq_ranks_array : ℕ → ℕ → Option CString
fill_seq_ranks_array zero base_rank = none
fill_seq_ranks_array (suc n) base_rank =
    let text = join b',' (numbers base_rank (suc n)) in
    if leb (suc n * (max_digit_len + 1) - 1) (length text) then none else some text

unfoldable pub node_names : ℕ → ℕ → List CString
node_names i zero = []
node_names i (suc n) = node_name i ∷ node_names (suc i) n

-- The nodes: the own one of a single server, or those of all servers.
unfoldable pub nodes_of : ℕ → CString → List CString
nodes_of nservers hostname = if nservers == 1 then hostname ∷ [] else node_names 0 nservers

-- The global process map: with two servers the other processes are on the other server.
unfoldable pub ranks_by_node :
    (nservers my_server_id local univ_size base_rank : ℕ) → CString → CString
ranks_by_node nservers my_server_id local univ_size base_rank ranks =
    let behind = join b',' (numbers (base_rank + local) (univ_size - (base_rank + local))) in
    let before = join b',' (numbers 0 base_rank) in
    if nservers == 2
    then (if my_server_id == 0
        then join b';' (ranks ∷ behind ∷ [])
        else join b';' (before ∷ ranks ∷ []))
    else ranks

-- What a server knows of itself, and the functions of the library.
pub record Host : Type 0 where
  pub nservers : ℕ
  pub my_server_id : ℕ
  pub hostname : CString
  pub pid : ℕ
  pub generate_regex : CString → Option CString
  pub generate_ppn : CString → CString

unfoldable pub load_info :
    Host → (local univ_size base_rank : ℕ) → CString → CString → CString → Job
load_info host local univ_size base_rank name ranks regex = record {
  name = name;
  local_procs = local;
  info =
      job_size univ_size
      ∷ is_spawned 0
      ∷ local_size local
      ∷ local_peers ranks
      ∷ node_map regex
      ∷ proc_map (
          host.generate_ppn
            (ranks_by_node host.nservers host.my_server_id local univ_size base_rank ranks))
      ∷ job_size univ_size
      ∷ app_num host.pid
      ∷ [];
}

unfoldable pub with_regex :
    Host → (local univ_size base_rank : ℕ) → CString → CString → Option CString → Option Job
with_regex host local univ_size base_rank name ranks none = none
with_regex host local univ_size base_rank name ranks (some regex) =
    some (load_info host local univ_size base_rank name ranks regex)

unfoldable pub with_ranks :
    Host → (local univ_size base_rank : ℕ) → CString → Option CString → Option Job
with_ranks host local univ_size base_rank name none = none
with_ranks host local univ_size base_rank name (some ranks) =
    with_regex host local univ_size base_rank name ranks
      (host.generate_regex (join b',' (nodes_of host.nservers host.hostname)))

-- `set_namespace`: none if it returns without registering the namespace.
unfoldable pub set_namespace : Host → (local univ_size base_rank : ℕ) → CString → Option Job
set_namespace host local univ_size base_rank name =
    with_ranks host local univ_size base_rank name (fill_seq_ranks_array local base_rank)
