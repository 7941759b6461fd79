-- ===== src/Options/ClientArgs/RoundTrip.antt =====
-- `parse_cmd` of unit/test_common.c on the arguments that `set_client_argv` of unit/utils.c and
-- `server_launch_clients` of unit/test_server.c write.
use mathlib.Core.List.{append-nil}
use pmix_tests.Base.{
  ℕ, ◌<◌, ◌^◌, ◌%◌, ◌≡◌, refl, sym, ap, ◌∙◌, false, ◌&&◌, none, some, List, [], ◌++◌, arith, ◌==◌,
  if◌then◌else◌,
}
use pmix_tests.Base.Int.{ℤ, pos, eqb}
use pmix_tests.Base.Text.{CString, codes}
use pmix_tests.Options.Numbers.{strtol, to_u32, atoi}
use pmix_tests.Options.Params.{Params, init_params, rank_undef}
use pmix_tests.Options.Command.{
  Env, fix_rank, or_none, finish_params, parse_cmd, parsed, and_then, parse_args,
}
use pmix_tests.Options.ClientArgs.{set_client_argv, launch_args}
use pmix_tests.Options.ClientArgs.Reads.{Reads-append, is_some, np_or_one}
use pmix_tests.Options.ClientArgs.Parts.{
  IsAccepted, launch_part, client_params, Reads-set_client_argv,
}

-- The parameters that a client has of those of the harness, for its rank and its job.
abbrev pub client_view : Params → Env → ℕ → CString → ℕ → ℕ → Params
client_view p env rank nspace univ_size num_ns = record init_params {
  binary = some (codes "./pmix_client");
  np = some (np_or_one p.np);
  nprocs = to_u32 (strtol (np_or_one p.np));
  nspace = env.pmix_namespace;
  rank = rank;
  nservers = atoi nspace;
  ns_size = pos univ_size;
  ns_id = pos num_ns;
  verbose = p.verbose;
  prefix = p.prefix;
  early_fail = p.early_fail;
  fences = p.fences;
  use_same_keys = is_some p.fences && p.use_same_keys;
  test_job_fence = p.test_job_fence;
  nonblocking = p.test_job_fence && p.nonblocking;
  collect =
      if p.test_job_fence && p.collect_bad then rank % 2 == 1 else p.test_job_fence && p.collect;
  collect_bad = p.test_job_fence && p.collect_bad;
  noise = p.noise;
  ns_dist = p.ns_dist;
  test_publish = p.test_publish;
  test_spawn = p.test_spawn;
  test_connect = p.test_connect;
  test_resolve_peers = p.test_resolve_peers;
  test_error = p.test_error;
  key_replace = p.key_replace;
  test_internal = p.test_internal;
  gds_mode = p.gds_mode;
}

finish-client :
    (split : CString → List CString) (env : Env) (q : Params)
    → (q.rank == rank_undef) ≡ false
    → q.binary ≡ none
    → q.nspace ≡ none
    → finish_params split env q
      ≡ parsed (record q {
        binary = some (codes "./pmix_client");
        nspace = env.pmix_namespace;
        collect = if q.collect_bad then q.rank % 2 == 1 else q.collect;
      })
unfolding finish_params fix_rank or_none
finish-client split env q r b n = rw (r, b, n) refl

kept_internal : (z : ℤ) → (if eqb z (pos 0) then pos 0 else z) ≡ z
kept_internal z = ground arith

-- A client reads the options of the harness back from its arguments: those of the test, of which
-- the ones for the job fence only with it, its rank and the size and number of its job. The
-- namespace comes from the environment, and the name of the namespace in the arguments is taken
-- for a number of servers. The options of the harness are such that its own checks let them
-- through, and the numbers fit in an `int`.
pub parse_cmd-set_client_argv :
    (split : CString → List CString) (env : Env) (p : Params)
    → (rank : ℕ) (nspace : CString) (univ_size num_ns : ℕ) → IsAccepted p
    → rank < 2 ^ 31
    → univ_size < 2 ^ 31
    → num_ns < 2 ^ 31
    → parse_cmd split env
        (set_client_argv p ++ launch_args rank nspace univ_size num_ns)
        init_params
      ≡ parsed (client_view p env rank nspace univ_size num_ns)
unfolding parse_cmd parse_args
parse_cmd-set_client_argv split env p rank nspace univ_size num_ns h r u n =
    let args = set_client_argv p ++ launch_args rank nspace univ_size num_ns in
    let all =
      Reads-append (Reads-set_client_argv p h) (launch_part rank nspace univ_size num_ns r u n) in
    let inside : (rank == rank_undef) ≡ false = ground arith in
    let q : Params = record (client_params p h init_params) {
      rank = rank;
      nservers = atoi nspace;
      ns_size = pos univ_size;
      ns_id = pos num_ns;
      base_rank = 0;
    } in
    ap (λ l. parse_cmd split env l init_params) (sym (append-nil args))
    ∙ ap (λ r. and_then r (finish_params split env)) (all.read [] init_params)
    ∙ finish-client split env q inside refl refl
    ∙ ap
        (λ z.
          parsed (record (client_view p env rank nspace univ_size num_ns) { test_internal = z }))
        (kept_internal p.test_internal)
