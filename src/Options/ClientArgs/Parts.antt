-- ===== src/Options/ClientArgs/Parts.antt =====
-- What `parse_cmd` of unit/test_common.c makes of each part of the arguments of a client.
use pmix_tests.Base.{
  ℕ, zero, suc, ◌<◌, ◌^◌, ◌≡◌, refl, subst, false, ◌&&◌, ◌||◌, Option, none, some, List, [], arith,
  if◌then◌else◌, ok,
}
use pmix_tests.Base.Int.{ℤ, pos, negsuc, eqb}
use pmix_tests.Base.Text.{CString, codes, str_eq}
use pmix_tests.Options.Numbers.{
  strtol, to_int, to_u32, print_int, strtol-print_int, print_int-IsNumber, to_int_small,
  to_u32_small, atoi,
}
use pmix_tests.Options.Ranges.{Participant, parse_fence, parse_noise}
use pmix_tests.Options.Replace.{parse_replace}
use pmix_tests.Options.Params.{Params}
use pmix_tests.Options.Command.{
  branch_in, branch_of, takes_operand, is_dashed, apply_opt, check_noise, check_replace,
}
use pmix_tests.Options.ClientArgs.{
  with_operand, fence_args, job_fence_args, internal_args, set_client_argv, launch_args,
}
use pmix_tests.Options.ClientArgs.Reads.{
  Reads, Reads-append, given, Reads-flag, Reads-with_operand, is_some, fence_args-flat,
  job_fence_args-flat, np_or_one, Reads-np, Reads-one,
}

-- The parameters of a harness whose options the checks of `parse_cmd` let through.
abbrev FenceOk : Option CString → Type 0
FenceOk none = Unit
FenceOk (some s) = (parse_fence s false).0 ≡ 0

abbrev NoiseOk : Option CString → Type 0
NoiseOk none = Unit
NoiseOk (some s) = (ps : List Participant) × (parse_noise s false ≡ some ps)

abbrev ReplaceOk : Option CString → Type 0
ReplaceOk none = Unit
ReplaceOk (some s) =
    (is_dashed s ≡ false)
    × (cnt : ℤ) × (keys : List ℤ) × (parse_replace s false ≡ ok (cnt, 0, keys))

pub record IsAccepted (p : Params) : Type 0 where
  pub fences : FenceOk p.fences
  pub noise : NoiseOk p.noise
  pub key_replace : ReplaceOk p.key_replace
  pub internal : (m : ℕ) × (p.test_internal ≡ pos m) × (m < 2 ^ 31)

Reads-none : Reads [] (λ q. q)
Reads-none = record { read = λ rest q. refl }

print_int-is_dashed : (n : ℕ) → is_dashed (print_int (pos n)) ≡ false
unfolding is_dashed
print_int-is_dashed n = let (c, cs, e, lo, hi) = print_int-IsNumber n in rw e (ground arith)

internal_at :
    (m : ℕ)
    → m < 2 ^ 31
    → Reads
        (internal_args (pos m))
        (λ q. record q { test_internal = if eqb (pos m) (pos 0) then q.test_internal else pos m })
unfolding internal_args branch_of branch_in str_eq takes_operand apply_opt
internal_at zero h = Reads-none
internal_at (suc m) h =
    let e : eqb (pos (suc m)) (pos 0) ≡ false = ground arith in
    rw e (
      Reads-one (codes "--test-internal") (print_int (pos (suc m)))
        (λ q. record q { test_internal = pos (suc m) }) refl
        (λ q.
          rw (print_int-is_dashed (suc m), strtol-print_int (suc m) h, to_int_small (suc m) h)
            refl))

-- The arguments for one client: its rank, and the numbers of its job. The name of the namespace is
-- read as a number of servers.
pub launch_part :
    (rank : ℕ) (nspace : CString) (univ_size num_ns : ℕ)
    → rank < 2 ^ 31
    → univ_size < 2 ^ 31
    → num_ns < 2 ^ 31
    → Reads (launch_args rank nspace univ_size num_ns) (λ q. record q {
      rank = rank;
      nservers = atoi nspace;
      ns_size = pos univ_size;
      ns_id = pos num_ns;
      base_rank = 0;
    })
unfolding launch_args branch_of branch_in str_eq takes_operand apply_opt
launch_part rank nspace univ_size num_ns r u n =
    Reads-append
      (Reads-one (codes "-r") (print_int (pos rank)) (λ q. record q { rank = rank }) refl
        (λ q. rw (strtol-print_int rank r, to_u32_small rank r) refl))
      (Reads-append
        (Reads-one (codes "-s") nspace (λ q. record q { nservers = atoi nspace }) refl (λ q. refl))
        (Reads-append
          (Reads-one (codes "--ns-size") (print_int (pos univ_size))
            (λ q. record q { ns_size = pos univ_size }) refl
            (λ q. rw (strtol-print_int univ_size u, to_int_small univ_size u) refl))
          (Reads-append
            (Reads-one (codes "--ns-id") (print_int (pos num_ns))
              (λ q. record q { ns_id = pos num_ns }) refl
              (λ q. rw (strtol-print_int num_ns n, to_int_small num_ns n) refl))
            (Reads-one (codes "--base-rank") (print_int (pos 0)) (λ q. record q { base_rank = 0 })
              refl (λ q. rw (strtol-print_int 0 (omega arith)) refl)))))

module _ (p : Params) (h : IsAccepted p) where
  fence_part : Reads (fence_args p) (λ q. record q {
    fences = given p.fences q.fences;
    use_same_keys = q.use_same_keys || (is_some p.fences && p.use_same_keys);
  })
  unfolding branch_of branch_in str_eq takes_operand apply_opt
  fence_part = rw (fence_args-flat p) (
      Reads-append
        (Reads-with_operand (codes "--fence") (λ q. q.fences) (λ o q. record q { fences = o }) refl
          (λ q. refl) p.fences
          (λ s q e.
            let v : (parse_fence s false).0 ≡ 0 = subst FenceOk e h.fences in ground (arith, v)))
        (Reads-flag (codes "--use-same-keys") (λ q. q.use_same_keys)
          (λ b q. record q { use_same_keys = b }) refl (λ q. refl) (λ q. refl)
          (is_some p.fences && p.use_same_keys)))

  job_fence_part : Reads (job_fence_args p) (λ q. record q {
    test_job_fence = q.test_job_fence || p.test_job_fence;
    nonblocking = q.nonblocking || (p.test_job_fence && p.nonblocking);
    collect = q.collect || (p.test_job_fence && p.collect);
    collect_bad = q.collect_bad || (p.test_job_fence && p.collect_bad);
  })
  unfolding branch_of branch_in str_eq takes_operand apply_opt
  job_fence_part = rw (job_fence_args-flat p) (
      Reads-append
        (Reads-flag (codes "--job-fence") (λ q. q.test_job_fence)
          (λ b q. record q { test_job_fence = b }) refl (λ q. refl) (λ q. refl) (p.test_job_fence))
        (Reads-append
          (Reads-flag (codes "-nb") (λ q. q.nonblocking) (λ b q. record q { nonblocking = b }) refl
            (λ q. refl) (λ q. refl) (p.test_job_fence && p.nonblocking))
          (Reads-append
            (Reads-flag (codes "-c") (λ q. q.collect) (λ b q. record q { collect = b }) refl
              (λ q. refl) (λ q. refl) (p.test_job_fence && p.collect))
            (Reads-flag (codes "--collect-corrupt") (λ q. q.collect_bad)
              (λ b q. record q { collect_bad = b }) refl (λ q. refl) (λ q. refl)
              (p.test_job_fence && p.collect_bad)))))

  noise_part :
      Reads
        (with_operand p.noise (codes "--noise"))
        (λ q. record q { noise = given p.noise q.noise })
  unfolding branch_of branch_in str_eq takes_operand apply_opt check_noise
  noise_part =
      Reads-with_operand (codes "--noise") (λ q. q.noise) (λ o q. record q { noise = o }) refl
        (λ q. refl) p.noise
        (λ s q e. let v : NoiseOk (some s) = subst NoiseOk e h.noise in rw v.1 refl)

  replace_part :
      Reads
        (with_operand p.key_replace (codes "--test-replace"))
        (λ q. record q { key_replace = given p.key_replace q.key_replace })
  unfolding branch_of branch_in str_eq takes_operand apply_opt check_replace
  replace_part =
      Reads-with_operand (codes "--test-replace") (λ q. q.key_replace)
        (λ o q. record q { key_replace = o }) refl (λ q. refl) p.key_replace
        (λ s q e.
          let v : ReplaceOk (some s) = subst ReplaceOk e h.key_replace in rw (v.0, v.3) refl)

  internal_part : Reads (internal_args p.test_internal) (λ q. record q {
    test_internal = if eqb p.test_internal (pos 0) then q.test_internal else p.test_internal;
  })
  internal_part = let (m, e, lt) = h.internal in rw e (internal_at m lt)

  -- The parameters that a client sees of those of the harness.
  abbrev pub client_params : Params → Params
  client_params q = record q {
    np = some (np_or_one p.np);
    nprocs = to_u32 (strtol (np_or_one p.np));
    ns_size =
        if eqb q.ns_size (negsuc 0)
        then to_int (pos (to_u32 (strtol (np_or_one p.np))))
        else q.ns_size;
    verbose = q.verbose || p.verbose;
    prefix = given p.prefix q.prefix;
    early_fail = q.early_fail || p.early_fail;
    fences = given p.fences q.fences;
    use_same_keys = q.use_same_keys || (is_some p.fences && p.use_same_keys);
    test_job_fence = q.test_job_fence || p.test_job_fence;
    nonblocking = q.nonblocking || (p.test_job_fence && p.nonblocking);
    collect = q.collect || (p.test_job_fence && p.collect);
    collect_bad = q.collect_bad || (p.test_job_fence && p.collect_bad);
    noise = given p.noise q.noise;
    ns_dist = given p.ns_dist q.ns_dist;
    test_publish = q.test_publish || p.test_publish;
    test_spawn = q.test_spawn || p.test_spawn;
    test_connect = q.test_connect || p.test_connect;
    test_resolve_peers = q.test_resolve_peers || p.test_resolve_peers;
    test_error = q.test_error || p.test_error;
    key_replace = given p.key_replace q.key_replace;
    test_internal = if eqb p.test_internal (pos 0) then q.test_internal else p.test_internal;
    gds_mode = given p.gds_mode q.gds_mode;
  }

  pub Reads-set_client_argv : Reads (set_client_argv p) client_params
  unfolding set_client_argv branch_of branch_in str_eq takes_operand apply_opt
  Reads-set_client_argv = Reads-append (Reads-np p.np) (
      Reads-append
        (Reads-flag (codes "-v") (λ q. q.verbose) (λ b q. record q { verbose = b }) refl (λ q. refl)
          (λ q. refl) p.verbose)
        (Reads-append
          (Reads-with_operand (codes "-o") (λ q. q.prefix) (λ o q. record q { prefix = o }) refl
            (λ q. refl) p.prefix (λ s q e. refl))
          (Reads-append
            (Reads-flag (codes "--early-fail") (λ q. q.early_fail)
              (λ b q. record q { early_fail = b }) refl (λ q. refl) (λ q. refl) p.early_fail)
            (Reads-append fence_part (
              Reads-append job_fence_part (
                Reads-append noise_part (
                  Reads-append
                    (Reads-with_operand (codes "--ns-dist") (λ q. q.ns_dist)
                      (λ o q. record q { ns_dist = o }) refl (λ q. refl) p.ns_dist (λ s q e. refl))
                    (Reads-append
                      (Reads-flag (codes "--test-publish") (λ q. q.test_publish)
                        (λ b q. record q { test_publish = b }) refl (λ q. refl) (λ q. refl)
                        p.test_publish)
                      (Reads-append
                        (Reads-flag (codes "--test-spawn") (λ q. q.test_spawn)
                          (λ b q. record q { test_spawn = b }) refl (λ q. refl) (λ q. refl)
                          p.test_spawn)
                        (Reads-append
                          (Reads-flag (codes "--test-connect") (λ q. q.test_connect)
                            (λ b q. record q { test_connect = b }) refl (λ q. refl) (λ q. refl)
                            p.test_connect)
                          (Reads-append
                            (Reads-flag (codes "--test-resolve-peers") (λ q. q.test_resolve_peers)
                              (λ b q. record q { test_resolve_peers = b }) refl (λ q. refl)
                              (λ q. refl) p.test_resolve_peers)
                            (Reads-append
                              (Reads-flag (codes "--test-error") (λ q. q.test_error)
                                (λ b q. record q { test_error = b }) refl (λ q. refl) (λ q. refl)
                                p.test_error)
                              (Reads-append replace_part (
                                Reads-append internal_part (
                                  Reads-with_operand (codes "--gds") (λ q. q.gds_mode)
                                    (λ o q. record q { gds_mode = o }) refl (λ q. refl) p.gds_mode
                                    (λ s q e. refl))))))))))))))))
