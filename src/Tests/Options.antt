-- ===== src/Tests/Options.antt =====
-- The options of unit/test_common.c and unit/utils.c on small inputs.
use pmix_tests.Base.{◌≡◌, refl, true, none, some, [], ◌∷◌, ◌++◌, arith}
use pmix_tests.Base.Int.{pos}
use pmix_tests.Base.Text.{codes}
use pmix_tests.Options.Numbers.{strtol, read_digits, is_digit_code, to_int, atoi, signed}
use pmix_tests.Options.Ranges.{
  parse_fence, fence_loop, token_fence, split_at, fence_flags, token_nspaces, token_nspace,
  token_ranks, ranks_loop, bad_value, skip_spaces, parse_noise, tokens,
}
use pmix_tests.Options.Replace.{parse_replace, replace_parts, replace_loop, fields, is_digit}
use pmix_tests.Options.Params.{Params, init_params}
use pmix_tests.Options.Command.{Env, parsed, is_dashed, parse_cmd}
use pmix_tests.Options.ClientArgs.{set_client_argv, launch_args}
use pmix_tests.Options.ClientArgs.Parts.{IsAccepted}
use pmix_tests.Options.ClientArgs.RoundTrip.{client_view, parse_cmd-set_client_argv}

-- A harness that tests a fence, a job fence and the replacement of keys.
abbrev harness : Params
harness = record init_params {
  np = some (codes "4");
  nprocs = 4;
  verbose = true;
  fences = some (codes "[db | 0:0-2;1:]");
  use_same_keys = true;
  test_job_fence = true;
  nonblocking = true;
  collect = true;
  noise = some (codes "[0:1,3]");
  key_replace = some (codes "3:0,2");
  test_internal = pos 5;
  ns_dist = some (codes "3:1");
}

harness-IsAccepted : IsAccepted harness
unfolding parse_fence fence_loop token_fence split_at fence_flags token_nspaces token_nspace
    token_ranks ranks_loop bad_value skip_spaces tokens strtol signed read_digits is_digit_code
    to_int parse_noise parse_replace replace_parts replace_loop fields is_digit atoi is_dashed
harness-IsAccepted = record {
  fences = refl;
  noise = ([], refl);
  key_replace = (refl, pos 3, [], refl);
  internal = (5, refl, omega arith);
}

abbrev env : Env
env = record {
  slurm_gtids = none;
  slurm_localid = none;
  pmix_namespace = some (codes "smoky_nspace-0");
}

parse_cmd-set_client_argv_example :
    parse_cmd
      (λ s. s ∷ [])
      env
      (set_client_argv harness ++ launch_args 3 (codes "smoky_nspace-0") 4 0)
      init_params
    ≡ parsed (client_view harness env 3 (codes "smoky_nspace-0") 4 0)
parse_cmd-set_client_argv_example =
    parse_cmd-set_client_argv (λ s. s ∷ []) env harness 3 (codes "smoky_nspace-0") 4 0
      harness-IsAccepted (omega arith) (omega arith) (omega arith)
