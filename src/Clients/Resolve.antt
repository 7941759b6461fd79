-- ===== src/Clients/Resolve.antt =====
-- unit/test_resolve_peers.c. PMIx_Resolve_peers answers the processes of a namespace on a node, or
-- `none` for NULL. `max_nslen` is PMIX_MAX_NSLEN; a namespace fits into its field.
pub mod Paired
use pmix_tests.Base.{
  ℕ, zero, suc, ◌-◌, Bool, true, false, ◌&&◌, not, Option, none, some, List, [], ◌∷◌, ◌++◌, ◌==◌,
  ltb, length, take, if◌then◌else◌, Run, ok,
}
use pmix_tests.Base.Int.{pos}
use pmix_tests.Base.Text.{CString, codes, str_eq}
use pmix_tests.Base.Status.{Status, success, error, is_success}
use pmix_tests.Published.{Proc}
use pmix_tests.Options.Numbers.{print_int}
use pmix_tests.Options.Ranges.{Participant}
use pmix_tests.Options.Params.{Params}
use pmix_tests.Options.Distribution.{get_total_ns_number, get_all_ranks_from_namespace}
use pmix_tests.Clients.{
  Step, next, leave, crashes, Body, ◌>>=◌, ◌>>◌, done, return_unless, returned, check, call, ask,
}
use pmix_tests.Clients.Connect.{ConnectLibrary, all_of}

abbrev pub ResolveCall : Type 0 → Type 0
ResolveCall L = CString → CString → L → Status × Option (List Proc) × L

-- The loop that compares the ranks, of two arrays of the same length.
unfoldable pub same_ranks : List Proc → List Proc → Bool
same_ranks [] ranks = true
same_ranks (p ∷ ps) [] = true
same_ranks (p ∷ ps) (r ∷ rs) = (p.rank == r.rank) && same_ranks ps rs

-- `0 < strncmp(a, b, PMIX_MAX_NSLEN)`
unfoldable pub is_behind : CString → CString → Bool
is_behind [] b = false
is_behind (x ∷ xs) [] = true
is_behind (x ∷ xs) (y ∷ ys) = let rest = is_behind xs ys in if x == y then rest else ltb y x

-- The two participants, in the order that all processes keep.
abbrev pub pair_of : CString → CString → List Participant
pair_of nspace my_nspace =
    if is_behind nspace my_nspace
    then all_of nspace ∷ all_of my_nspace ∷ []
    else all_of my_nspace ∷ all_of nspace ∷ []

-- The name of namespace `n`.
abbrev pub nspace_of : ℕ → ℕ → CString
nspace_of max_nslen n = take (max_nslen - 1) (codes "smoky_nspace-" ++ print_int (pos n))

module _ {L : Type 0} where
  abbrev pub some_procs : Option (List Proc) → Body L (List Proc)
  some_procs (some (p ∷ ps)) l = (next (p ∷ ps), l)
  some_procs _ l = (leave error, l)

  abbrev pub some_ranks : Run (Option (List Proc) × Status) → Body L (List Proc)
  some_ranks (ok (some ranks, rc)) l = (if is_success rc then next ranks else leave rc, l)
  some_ranks (ok (none, rc)) l = (leave rc, l)
  some_ranks _ l = (crashes, l)

module _ {L : Type 0} (resolve_peers : ResolveCall L) (max_nslen : ℕ) (params : Params) where
  unfoldable pub resolve_nspace : CString → Body L Status
  resolve_nspace nspace = do
    (rc, procs) ← ask (resolve_peers (codes "node1") nspace)
    check rc
    procs ← some_procs procs
    ranks ← some_ranks (get_all_ranks_from_namespace max_nslen params nspace)
    return_unless (length procs == length ranks) error
    done (if same_ranks procs ranks then success else error)

module _ {L : Type 0} (lib : ConnectLibrary L) (resolve_peers : ResolveCall L) (max_nslen : ℕ)
    (params : Params) (my_nspace : CString) where
  -- The end of a round: the processes are disconnected, and where the peers were not resolved the
  -- loop ends with the status of this.
  unfoldable pub disconnect_pair : List Participant → Status → Body L (Unit {0})
  disconnect_pair procs resolved = do
    rc ← call (lib.disconnect procs)
    check resolved
    return_unless (is_success rc) error

  -- A round of the loop for another namespace.
  unfoldable pub resolve_other : CString → Body L (Unit {0})
  resolve_other nspace = do
    rc ← call (lib.connect (pair_of nspace my_nspace))
    return_unless (is_success rc) error
    rc ← returned (resolve_nspace resolve_peers max_nslen params nspace)
    disconnect_pair (pair_of nspace my_nspace) rc

  -- The client's own namespace is passed over.
  unfoldable pub resolve_round : CString → Body L (Unit {0})
  resolve_round nspace = if str_eq my_nspace nspace then done tt else resolve_other nspace

  -- The rounds for `k` namespaces, from number `n` on.
  unfoldable pub resolve_loop : ℕ → ℕ → Body L (Unit {0})
  resolve_loop zero n = done tt
  resolve_loop (suc k) n = do resolve_round (nspace_of max_nslen n); resolve_loop k (suc n)

  unfoldable pub test_resolve_peers : Body L Status
  test_resolve_peers = do
    rc ← returned (resolve_nspace resolve_peers max_nslen params my_nspace)
    return_unless (is_success rc) error
    return_unless (ltb 0 (get_total_ns_number params)) error
    resolve_loop (get_total_ns_number params) 0
    done success
