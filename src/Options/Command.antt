-- ===== src/Options/Command.antt =====
-- `parse_cmd` of unit/test_common.c. The environment and `pmix_argv_split` of the PMIx library are parameters. `exited` is a call of exit
-- with its code; `strdup(NULL)`, an index out of bounds and a `fault` of a called function are
-- `crashed`.
pub mod Dropped
use pmix_tests.Base.{
  ℕ, ◌%◌, Bool, true, false, Option, none, some, List, [], ◌∷◌, ◌==◌, if◌then◌else◌, get_elem?, Run,
  ok,
}
use pmix_tests.Base.Int.{ℤ, pos, negsuc, eqb}
use pmix_tests.Base.Text.{CString, codes, str_eq}
use pmix_tests.Options.Numbers.{strtol, atoi, to_int, to_u32}
use pmix_tests.Options.Ranges.{parse_fence, parse_noise}
use pmix_tests.Options.Replace.{parse_replace}
use pmix_tests.Options.Params.{Params, rank_undef}

pub data Parsed : Type 0 where
  parsed : Params → Parsed
  exited : ℕ → Parsed
  crashed : Parsed

-- The branches of the loop, in their order.
pub data Opt : Type 0 where
  opt_n opt_help opt_exec opt_nservers opt_verbose opt_timeout opt_prefix opt_nspace opt_rank : Opt
  opt_early_fail opt_fence opt_same_keys opt_job_fence opt_collect_corrupt opt_collect : Opt
  opt_nonblocking opt_noise opt_ns_dist opt_ns_size opt_ns_id opt_base_rank opt_publish : Opt
  opt_spawn opt_connect opt_resolve_peers opt_error opt_replace opt_internal opt_gds : Opt
  opt_unknown : Opt

-- The names that the branches compare with.
abbrev pub option_names : List (CString × Opt)
option_names =
    (codes "--n", opt_n)
    ∷ (codes "-n", opt_n)
    ∷ (codes "--h", opt_help)
    ∷ (codes "-h", opt_help)
    ∷ (codes "--exec", opt_exec)
    ∷ (codes "-e", opt_exec)
    ∷ (codes "--nservers", opt_nservers)
    ∷ (codes "-s", opt_nservers)
    ∷ (codes "--verbose", opt_verbose)
    ∷ (codes "-v", opt_verbose)
    ∷ (codes "--timeout", opt_timeout)
    ∷ (codes "-t", opt_timeout)
    ∷ (codes "-o", opt_prefix)
    ∷ (codes "-s", opt_nspace)
    ∷ (codes "--rank", opt_rank)
    ∷ (codes "-r", opt_rank)
    ∷ (codes "--early-fail", opt_early_fail)
    ∷ (codes "--fence", opt_fence)
    ∷ (codes "--use-same-keys", opt_same_keys)
    ∷ (codes "--job-fence", opt_job_fence)
    ∷ (codes "--collect-corrupt", opt_collect_corrupt)
    ∷ (codes "--collect", opt_collect)
    ∷ (codes "-c", opt_collect)
    ∷ (codes "--non-blocking", opt_nonblocking)
    ∷ (codes "-nb", opt_nonblocking)
    ∷ (codes "--noise", opt_noise)
    ∷ (codes "--ns-dist", opt_ns_dist)
    ∷ (codes "--ns-size", opt_ns_size)
    ∷ (codes "--ns-id", opt_ns_id)
    ∷ (codes "--base-rank", opt_base_rank)
    ∷ (codes "--test-publish", opt_publish)
    ∷ (codes "--test-spawn", opt_spawn)
    ∷ (codes "--test-connect", opt_connect)
    ∷ (codes "--test-resolve-peers", opt_resolve_peers)
    ∷ (codes "--test-error", opt_error)
    ∷ (codes "--test-replace", opt_replace)
    ∷ (codes "--test-internal", opt_internal)
    ∷ (codes "--gds", opt_gds)
    ∷ []

unfoldable pub branch_in : List (CString × Opt) → CString → Opt
branch_in [] arg = opt_unknown
branch_in ((name, o) ∷ names) arg =
    let later = branch_in names arg in if str_eq arg name then o else later

-- The first branch that one of whose names is the argument.
unfoldable pub branch_of : CString → Opt
branch_of arg = branch_in option_names arg

-- The branches with an `i++`.
unfoldable pub takes_operand : Opt → Bool
takes_operand opt_n = true
takes_operand opt_exec = true
takes_operand opt_nservers = true
takes_operand opt_timeout = true
takes_operand opt_prefix = true
takes_operand opt_nspace = true
takes_operand opt_rank = true
takes_operand opt_fence = true
takes_operand opt_noise = true
takes_operand opt_ns_dist = true
takes_operand opt_ns_size = true
takes_operand opt_ns_id = true
takes_operand opt_base_rank = true
takes_operand opt_replace = true
takes_operand opt_internal = true
takes_operand opt_gds = true
takes_operand _ = false

-- `*argv[i] != '-'`
unfoldable pub is_dashed : CString → Bool
is_dashed [] = false
is_dashed (c ∷ cs) = c == 45

abbrev pub default_replace : CString
default_replace = codes "3:1"

set_timeout : ℤ → ℤ
set_timeout t = if eqb t (pos 0) then pos 10 else t

-- The ends of `parse_replace`: a `ret` that is not 0 exits.
unfoldable pub check_replace : CString → Run (ℤ × ℕ × List ℤ) → Params → Parsed
check_replace s (ok (_, ret, _)) p =
    if ret == 0 then parsed (record p { key_replace = some s }) else exited 1
check_replace s _ p = crashed

unfoldable pub check_noise : {W : Type 0} → CString → Option W → Params → Parsed
check_noise s none p = exited 1
check_noise s (some _) p = parsed (record p { noise = some s })

-- A branch, with the operand after it, if there is one.
unfoldable pub apply_opt : Opt → Option CString → Params → Parsed
unfolding set_timeout check_replace check_noise
apply_opt opt_n (some s) p =
    let nprocs = to_u32 (strtol s) in
    parsed (record p {
      np = some s;
      nprocs = nprocs;
      ns_size = if eqb p.ns_size (negsuc 0) then to_int (pos nprocs) else p.ns_size;
    })
apply_opt opt_help o p = exited 0
apply_opt opt_exec (some s) p = parsed (record p { binary = some s })
apply_opt opt_nservers (some s) p = parsed (record p { nservers = atoi s })
apply_opt opt_verbose o p = parsed (record p { verbose = true })
apply_opt opt_timeout (some s) p = parsed (record p { timeout = set_timeout (atoi s) })
apply_opt opt_prefix (some s) p = parsed (record p { prefix = some s })
apply_opt opt_nspace (some s) p = parsed (record p { nspace = some s })
apply_opt opt_rank (some s) p = parsed (record p { rank = to_u32 (strtol s) })
apply_opt opt_early_fail o p = parsed (record p { early_fail = true })
apply_opt opt_fence (some s) p =
    if (parse_fence s false).0 == 0 then parsed (record p { fences = some s }) else exited 1
apply_opt opt_same_keys o p = parsed (record p { use_same_keys = true })
apply_opt opt_job_fence o p = parsed (record p { test_job_fence = true })
apply_opt opt_collect_corrupt o p = parsed (record p { collect_bad = true })
apply_opt opt_collect o p = parsed (record p { collect = true })
apply_opt opt_nonblocking o p = parsed (record p { nonblocking = true })
apply_opt opt_noise (some s) p = check_noise s (parse_noise s false) p
apply_opt opt_ns_dist (some s) p = parsed (record p { ns_dist = some s })
apply_opt opt_ns_size (some s) p = parsed (record p { ns_size = to_int (strtol s) })
apply_opt opt_ns_id (some s) p = parsed (record p { ns_id = to_int (strtol s) })
apply_opt opt_base_rank (some s) p = parsed (record p { base_rank = to_u32 (strtol s) })
apply_opt opt_publish o p = parsed (record p { test_publish = true })
apply_opt opt_spawn o p = parsed (record p { test_spawn = true })
apply_opt opt_connect o p = parsed (record p { test_connect = true })
apply_opt opt_resolve_peers o p = parsed (record p { test_resolve_peers = true })
apply_opt opt_error o p = parsed (record p { test_error = true })
apply_opt opt_replace (some s) p =
    if is_dashed s
    then parsed (record p { key_replace = some default_replace })
    else check_replace s (parse_replace s false) p
apply_opt opt_replace none p = parsed (record p { key_replace = some default_replace })
apply_opt opt_internal (some s) p =
    parsed (record p { test_internal = if is_dashed s then pos 1 else to_int (strtol s) })
apply_opt opt_internal none p = parsed (record p { test_internal = pos 1 })
apply_opt opt_gds (some s) p = parsed (record p { gds_mode = some s })
apply_opt opt_gds none p = crashed
apply_opt opt_unknown o p = exited 1
apply_opt _ none p = parsed p

abbrev pub and_then : Parsed → (Params → Parsed) → Parsed
and_then (parsed p) next = next p
and_then (exited code) next = exited code
and_then crashed next = crashed

-- The loop over the arguments after the first. An operand that is missing ends it, since the
-- argument after the last is NULL.
unfoldable pub parse_args : List CString → Params → Parsed
parse_args [] p = parsed p
parse_args (a ∷ []) p = apply_opt (branch_of a) none p
parse_args (a ∷ b ∷ rest) p =
    let o = branch_of a in
    let with_operand = and_then (apply_opt o (some b) p) (parse_args rest) in
    let alone = and_then (apply_opt o none p) (parse_args (b ∷ rest)) in
    if takes_operand o then with_operand else alone

-- The variables of the environment: `SLURM_GTIDS`, `SLURM_LOCALID` and `PMIX_NAMESPACE`.
pub record Env : Type 0 where
  pub slurm_gtids : Option CString
  pub slurm_localid : Option CString
  pub pmix_namespace : Option CString

-- The rank under SLURM: entry `rankidx` of the list. Both numbers are read by strtoul, which gives
-- what strtol gives for numbers below 2^63.
pick_rank : List CString → ℤ → Params → Parsed
pick_rank ids (negsuc i) p = crashed
pick_rank ids (pos i) p = elim (get_elem? ids i) [
  | none ↦ exited 1
  | some s ↦ parsed (record p { rank = to_u32 (strtol s) })
]

unfoldable pub fix_rank : (CString → List CString) → Env → Params → Parsed
unfolding pick_rank
fix_rank split env p =
    if p.rank == rank_undef
    then elim env.slurm_gtids [
      | none ↦ parsed p
      | some gtids ↦ elim env.slurm_localid [
        | none ↦ parsed p
        | some localid ↦ pick_rank (split gtids) (to_int (strtol localid)) p
      ]
    ]
    else parsed p

unfoldable pub or_none : Option CString → Option CString → Option CString
or_none none other = other
or_none (some s) other = some s

-- What follows the loop.
unfoldable pub finish_params : (CString → List CString) → Env → Params → Parsed
unfolding fix_rank or_none
finish_params split env p =
    let p1 = record p {
      binary = or_none p.binary (some (codes "./pmix_client"));
      collect = if p.collect_bad then p.rank % 2 == 1 else p.collect;
    } in
    and_then (fix_rank split env p1)
      λ q. parsed (record q { nspace = or_none q.nspace env.pmix_namespace })

-- `parse_cmd`, for the arguments after the name of the program.
unfoldable pub parse_cmd : (CString → List CString) → Env → List CString → Params → Parsed
parse_cmd split env args p =
    and_then (parse_args args (record p { nspace = none })) (finish_params split env)
