-- ===== src/Options/Distribution.antt =====
-- `get_total_ns_number` and `get_all_ranks_from_namespace` of unit/test_common.c, which read the
-- option `--ns-dist n1:n2:...`, the number of ranks of each namespace. A negative number of ranks,
-- which is too large a `size_t`, and a name that is shorter than TEST_NAMESPACE and its dash are
-- `fault`. `max_nslen` is PMIX_MAX_NSLEN.
use pmix_tests.Base.{
  ℕ, zero, suc, ◌+◌, ◌-◌, ◌≤◌, ◌<◌, ◌^◌, ◌≡◌, refl, false, ◌&&◌, not, Option, none, some, List, [],
  ◌∷◌, ◌++◌, arith, ltb, if◌then◌else◌, length, length-append, take, drop, Run, ok, fault,
}
use pmix_tests.Base.Int.{ℤ, pos, negsuc, eqb, eqb_refl}
use pmix_tests.Base.Text.{CString, codes}
use pmix_tests.Base.Status.{Status, success, error}
use pmix_tests.Published.{Proc}
use pmix_tests.Options.Numbers.{strtol, to_int, print_int, strtol-print_int, to_int_small}
use pmix_tests.Options.Ranges.{tokens, suc_int}
use pmix_tests.Options.Params.{Params}

-- The loop `while (NULL != pch)`: `ts` are the tokens that `strtok` has still to give.
unfoldable pub total_loop : List CString → ℕ → ℕ
total_loop [] num = suc num
total_loop (t ∷ ts) num = total_loop ts (suc num)

unfoldable pub get_total_ns_number : Params → ℕ
get_total_ns_number p = elim p.ns_dist [
  | none ↦ 1
  | some dist ↦ total_loop (tokens 58 [] dist) 0 - 1
]

-- The search for the entry `ns_id`: the last `num`, and the last number of ranks.
unfoldable pub ranks_search : List CString → ℤ → ℤ → ℤ → ℤ × ℤ
ranks_search [] ns_id num num_ranks = (num, num_ranks)
ranks_search (t ∷ ts) ns_id num num_ranks =
    let next = ranks_search ts ns_id (suc_int num) (strtol t) in
    if eqb num ns_id then (num, num_ranks) else next

-- `n` processes, from rank `i` on.
unfoldable pub procs_from : CString → ℕ → ℕ → List Proc
procs_from nspace zero i = []
procs_from nspace (suc n) i = record { nspace = nspace; rank = i } ∷ procs_from nspace n (suc i)

-- PMIX_PROC_CREATE and the loop that fills the array.
unfoldable pub create_procs : ℕ → CString → ℤ → Run (Option (List Proc) × Status)
create_procs max_nslen nspace (pos n) = ok (some (procs_from (take max_nslen nspace) n 0), success)
create_procs max_nslen nspace (negsuc n) = fault

unfoldable pub found_ranks : ℕ → CString → ℤ → ℤ × ℤ → Run (Option (List Proc) × Status)
found_ranks max_nslen nspace ns_id (num, num_ranks) =
    if eqb num ns_id && not (eqb num_ranks (pos 0))
    then create_procs max_nslen nspace num_ranks
    else ok (none, error)

unfoldable pub get_all_ranks_from_namespace :
    ℕ → Params → CString → Run (Option (List Proc) × Status)
get_all_ranks_from_namespace max_nslen p nspace = elim p.ns_dist [
  | none ↦ create_procs max_nslen nspace p.ns_size
  | some dist ↦
      if ltb (length nspace) 13
      then fault
      else let ns_id = to_int (strtol (drop 13 nspace)) in
        found_ranks max_nslen nspace ns_id
          (ranks_search (tokens 58 [] dist) ns_id (negsuc 0) (pos 0))
]

total_loop-length : (ts : List CString) (num : ℕ) → total_loop ts num ≡ suc (num + length ts)
unfolding total_loop
total_loop-length [] num = omega arith
total_loop-length (t ∷ ts) num = omega (arith, total_loop-length ts (suc num))

ranks_search-done :
    (ts : List CString) (k : ℕ) (r : ℤ) → ranks_search ts (pos k) (pos k) r ≡ (pos k, r)
unfolding ranks_search
ranks_search-done [] k r = refl
ranks_search-done (t ∷ ts) k r = rw (eqb_refl (pos k)) refl

-- After entry `k`, the entry in front of which these stand.
ranks_search-later :
    (before after : List CString) (t : CString) (k : ℕ) (r : ℤ)
    → ranks_search (before ++ t ∷ after) (pos (suc (k + length before))) (pos k) r
      ≡ (pos (suc (k + length before)), strtol t)
unfolding ranks_search
ranks_search-later [] after t k r =
    let differ : eqb (pos k) (pos (suc (k + 0))) ≡ false = ground arith in
    let e : k + 0 ≡ k = omega arith in rw (differ, e) (ranks_search-done after (suc k) (strtol t))
ranks_search-later (b ∷ before) after t k r =
    let differ : eqb (pos k) (pos (suc (k + suc (length before)))) ≡ false = ground arith in
    let e : k + suc (length before) ≡ suc k + length before = omega arith in
    rw (differ, e) (ranks_search-later before after t (suc k) (strtol b))

ranks_search-found :
    (before after : List CString) (t : CString)
    → ranks_search (before ++ t ∷ after) (pos (length before)) (negsuc 0) (pos 0)
      ≡ (pos (length before), strtol t)
unfolding ranks_search
ranks_search-found [] after t = ranks_search-done after 0 (strtol t)
ranks_search-found (b ∷ before) after t =
    let e : 0 + length before ≡ length before = omega arith in
    rw e at (ranks_search-later before after t 0 (strtol b))

-- All entries come before the one that is searched.
ranks_search-past :
    (ts : List CString) (k id : ℕ) (r : ℤ)
    → k + length ts < id
    → eqb (ranks_search ts (pos id) (pos k) r).0 (pos id) ≡ false
unfolding ranks_search
ranks_search-past [] k id r h = ground arith
ranks_search-past (t ∷ ts) k id r h =
    let differ : eqb (pos k) (pos id) ≡ false = ground arith in
    rw differ (ranks_search-past ts (suc k) id (strtol t) (omega arith))

ranks_search-missing :
    (ts : List CString) (id : ℕ)
    → length ts ≤ id
    → eqb (ranks_search ts (pos id) (negsuc 0) (pos 0)).0 (pos id) ≡ false
unfolding ranks_search
ranks_search-missing [] id h = refl
ranks_search-missing (t ∷ ts) id h = ranks_search-past ts 0 id (strtol t) (omega arith)

-- The name that the harness gives to a namespace.
abbrev pub ns_name : ℕ → CString
ns_name id = codes "smoky_nspace-" ++ print_int (pos id)

read_id : (id : ℕ) → id < 2 ^ 31 → to_int (strtol (print_int (pos id))) ≡ pos id
read_id id h = rw (strtol-print_int id h) (to_int_small id h)

total-length :
    (p : Params) (dist : CString)
    → p.ns_dist ≡ some dist
    → get_total_ns_number p ≡ length (tokens 58 [] dist)
unfolding get_total_ns_number
total-length p dist e = rw e (omega (arith, total_loop-length (tokens 58 [] dist) 0))

-- Each entry of `--ns-dist` is one of the namespaces that are counted, and asking for the ranks of
-- the namespace of that name gives as many ranks as the entry says, from 0 on. The entry is above
-- zero, and the number of the namespace fits in an `int`.
pub get_all_ranks-entry :
    (max_nslen : ℕ) (p : Params) (dist t : CString) (before after : List CString) (n : ℕ)
    → p.ns_dist ≡ some dist
    → tokens 58 [] dist ≡ before ++ t ∷ after
    → strtol t ≡ pos (suc n)
    → length before < 2 ^ 31
    → (length before < get_total_ns_number p)
      × (get_all_ranks_from_namespace max_nslen p (ns_name (length before))
          ≡ ok (some (procs_from (take max_nslen (ns_name (length before))) (suc n) 0), success))
unfolding get_all_ranks_from_namespace found_ranks create_procs
get_all_ranks-entry max_nslen p dist t before after n d ts v h = (
  rw (total-length p dist d, ts) (omega (arith, length-append before (t ∷ after))),
  rw (d, read_id (length before) h, ts, ranks_search-found before after t, v) (ground arith),
)

-- Asking for the ranks of a namespace that is not among those that are counted is an error.
pub get_all_ranks-missing :
    (max_nslen : ℕ) (p : Params) (dist : CString) (id : ℕ)
    → p.ns_dist ≡ some dist
    → get_total_ns_number p ≤ id
    → id < 2 ^ 31
    → get_all_ranks_from_namespace max_nslen p (ns_name id) ≡ ok (none, error)
unfolding get_all_ranks_from_namespace found_ranks
get_all_ranks-missing max_nslen p dist id d le h =
    let m = ranks_search-missing (tokens 58 [] dist) id (rw (total-length p dist d) at le) in
    rw (d, read_id id h, m) (ground arith)
