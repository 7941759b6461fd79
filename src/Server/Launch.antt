-- ===== src/Server/Launch.antt =====
-- The namespace entry that `server_launch_clients` of unit/test_server.c makes, before it sends the
-- process map and starts the clients.
pub mod Maps
pub mod Found
use pmix_tests.Base.{
  ℕ, zero, suc, ◌+◌, ◌≤◌, ◌<◌, ◌≡◌, refl, sym, ap, ◌∙◌, Option, none, some, List, [], ◌∷◌, ◌++◌,
  arith, true, ltb, if◌then◌else◌, length, length-append, length-replicate, set, set-middle,
  replicate, Run, ok, fault, ◌>>=◌,
}
use mathlib.Core.List.{append_assoc}
use pmix_tests.Base.Text.{CString}
use pmix_tests.Server.Procs.{ServerNspace}
use pmix_tests.Server.Procs.Ranks.{owned}
use pmix_tests.Server.Shares.{lsize, base_rank}

-- The loop that enters the server for its ranks, from rank `r` on. A write past the end is `fault`.
unfoldable pub claim_ranks : ℕ → ℕ → ℕ → List (Option ℕ) → Run (List (Option ℕ))
claim_ranks zero r id task_map = ok task_map
claim_ranks (suc n) r id task_map =
    let next = claim_ranks n (suc r) id (set task_map r (some id)) in
    if ltb r (length task_map) then next else fault

-- The new entry, behind those that are known.
unfoldable pub register_nspace :
    CString → ℕ → ℕ → ℕ → ℕ → List ServerNspace → Run (List ServerNspace)
register_nspace name local_size univ_size base_rank id known = do
  task_map ← claim_ranks local_size base_rank id (replicate univ_size none)
  ok (
      known
      ++ record { name = name; ntasks = univ_size; ltasks = local_size; task_map = task_map } ∷ [])

-- The map of a server that runs `n` ranks behind `before` others and in front of `after` others.
abbrev pub share_map : ℕ → ℕ → ℕ → ℕ → List (Option ℕ)
share_map before n after id =
    replicate before none ++ (replicate n (some id) ++ replicate after none)

claim_ranks-middle :
    (n id : ℕ) (pre post : List (Option ℕ))
    → claim_ranks n (length pre) id (pre ++ (replicate n none ++ post))
      ≡ ok (pre ++ (replicate n (some id) ++ post))
unfolding claim_ranks
claim_ranks-middle zero id pre post = refl
claim_ranks-middle (suc n) id pre post =
    let inside : ltb (length pre) (length (pre ++ none ∷ (replicate n none ++ post))) ≡ true =
      ground (arith, length-append pre (none ∷ (replicate n none ++ post))) in
    let len : length (pre ++ some id ∷ []) ≡ suc (length pre) =
      omega (arith, length-append pre (some id ∷ [])) in
    rw (inside, set-middle pre none (some id) (replicate n none ++ post))
      (rw
        (
          append_assoc pre (some id ∷ []) (replicate n none ++ post),
          append_assoc pre (some id ∷ []) (replicate n (some id) ++ post),
          len,
        )
        at (claim_ranks-middle n id (pre ++ some id ∷ []) post))

replicate-append : (m n : ℕ) (x : Option ℕ) → replicate (m + n) x ≡ replicate m x ++ replicate n x
replicate-append zero n x = ap (λ k. replicate k x) (omega arith)
replicate-append (suc m) n x =
    let e : suc m + n ≡ suc (m + n) = omega arith in rw e (ap (λ l. x ∷ l) (replicate-append m n x))

-- A server that is to run `n` ranks behind `before` others enters itself for these ranks and for no
-- other, and writes inside of the map.
pub claim_ranks-share :
    (before n after id : ℕ)
    → claim_ranks n before id (replicate (before + (n + after)) none)
      ≡ ok (share_map before n after id)
claim_ranks-share before n after id =
    rw (replicate-append before (n + after) none, replicate-append n after none)
      (rw (length-replicate {A = Option ℕ} before none) at
        (claim_ranks-middle n id (replicate before none) (replicate after none)))

owned-append : (id : ℕ) (xs ys : List (Option ℕ)) → owned id (xs ++ ys) ≡ owned id xs + owned id ys
owned-append id [] ys = omega arith
owned-append id (x ∷ xs) ys = ground (arith, owned-append id xs ys)

owned-none : (id n : ℕ) → owned id (replicate n none) ≡ 0
owned-none id zero = refl
owned-none id (suc n) = owned-none id n

owned-own : (id n : ℕ) → owned id (replicate n (some id)) ≡ n
owned-own id zero = refl
owned-own id (suc n) = ground (arith, owned-own id n)

pub owned-share_map : (before n after id : ℕ) → owned id (share_map before n after id) ≡ n
owned-share_map before n after id = omega (
  arith,
  owned-append id (replicate before none) (replicate n (some id) ++ replicate after none),
  owned-append id (replicate n (some id)) (replicate after none),
  owned-none id before,
  owned-own id n,
  owned-none id after,
)

pub length-share_map :
    (before n after id : ℕ) → length (share_map before n after id) ≡ before + (n + after)
length-share_map before n after id = omega (
  arith,
  length-append (replicate before none) (replicate n (some id) ++ replicate after none),
  length-append (replicate n (some id)) (replicate {A = Option ℕ} after none),
  length-replicate {A = Option ℕ} before none,
  length-replicate n (some id),
  length-replicate {A = Option ℕ} after none,
)
