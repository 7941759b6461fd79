-- ===== src/Options/ClientArgs.antt =====
-- `set_client_argv` of unit/utils.c: the arguments with which the harness starts its
-- clients, and those that `server_launch_clients` of unit/test_server.c appends for each of them.
pub mod Reads
pub mod Parts
pub mod RoundTrip
use pmix_tests.Base.{ℕ, Bool, true, false, Option, none, some, List, [], ◌∷◌, ◌++◌, if◌then◌else◌}
use pmix_tests.Base.Int.{ℤ, pos, negsuc, eqb}
use pmix_tests.Base.Text.{CString, codes}
use pmix_tests.Options.Numbers.{print_int}
use pmix_tests.Options.Params.{Params}

-- An option that stands alone.
unfoldable pub flag : Bool → CString → List CString
flag set name = if set then name ∷ [] else []

-- An option with an operand.
unfoldable pub with_operand : Option CString → CString → List CString
with_operand none name = []
with_operand (some s) name = name ∷ s ∷ []

unfoldable pub np_args : Option CString → List CString
np_args none = codes "-n" ∷ codes "1" ∷ []
np_args (some s) = codes "-n" ∷ s ∷ []

unfoldable pub fence_args : Params → List CString
fence_args p = elim p.fences [
  | none ↦ []
  | some s ↦ codes "--fence" ∷ s ∷ flag p.use_same_keys (codes "--use-same-keys")
]

unfoldable pub job_fence_args : Params → List CString
job_fence_args p =
    if p.test_job_fence
    then codes "--job-fence"
      ∷ (flag p.nonblocking (codes "-nb")
          ++ (flag p.collect (codes "-c") ++ flag p.collect_bad (codes "--collect-corrupt")))
    else []

unfoldable pub internal_args : ℤ → List CString
internal_args n = if eqb n (pos 0) then [] else codes "--test-internal" ∷ print_int n ∷ []

-- The arguments after the name of the program, which is `params->binary`.
unfoldable pub set_client_argv : Params → List CString
set_client_argv p =
    np_args p.np
    ++ (flag p.verbose (codes "-v")
        ++ (with_operand p.prefix (codes "-o")
            ++ (flag p.early_fail (codes "--early-fail")
                ++ (fence_args p
                    ++ (job_fence_args p
                        ++ (with_operand p.noise (codes "--noise")
                            ++ (with_operand p.ns_dist (codes "--ns-dist")
                                ++ (flag p.test_publish (codes "--test-publish")
                                    ++ (flag p.test_spawn (codes "--test-spawn")
                                        ++ (flag p.test_connect (codes "--test-connect")
                                            ++ (flag p.test_resolve_peers
                                                  (codes "--test-resolve-peers")
                                                ++ (flag p.test_error (codes "--test-error")
                                                    ++ (with_operand p.key_replace
                                                          (codes "--test-replace")
                                                        ++ (internal_args p.test_internal
                                                            ++ with_operand p.gds_mode
                                                            (codes "--gds")))))))))))))))

-- The arguments for one client: `sprintf(digit, "%d", ...)` of its rank, of the size of the job and
-- of the number of the namespace, and a base rank of 0.
unfoldable pub launch_args : ℕ → CString → ℕ → ℕ → List CString
launch_args rank nspace univ_size num_ns =
    codes "-r"
    ∷ print_int (pos rank)
    ∷ codes "-s"
    ∷ nspace
    ∷ codes "--ns-size"
    ∷ print_int (pos univ_size)
    ∷ codes "--ns-id"
    ∷ print_int (pos num_ns)
    ∷ codes "--base-rank"
    ∷ print_int (pos 0)
    ∷ []
