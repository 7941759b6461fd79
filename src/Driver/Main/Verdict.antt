-- ===== src/Driver/Main/Verdict.antt =====
-- What it means that `main` of unit/pmix_test.c returns 0.
use pmix_tests.Base.{
  ℕ, ◌≡◌, refl, sym, ap, ◌∙◌, inl, inr, Bool, true, false, not, ◌&&◌, ◌==◌, arith, if◌then◌else◌,
  Bool-cases, ==_iff, ok, ◌>>=◌,
}
use pmix_tests.Base.Int.{ℤ, pos}
use pmix_tests.Cli.Table.{test_terminated, cli_wait_all}
use pmix_tests.Options.Numbers.{to_u32}
use pmix_tests.Options.Params.{Params}
use pmix_tests.Server.Start.{Started, started, server_init}
use pmix_tests.Driver.{Harness, kill_all}
use pmix_tests.Driver.Main.{
  executable, Env, MainEnd, returns, exits, waits, Launch, launched, mismatch, in_client, Hang,
  over, hang_exits, hang_waits, hang_around, launch_all, finish, last_wait, time_out, after_hang,
  check_launched, after_launch, fresh, host_of, after_init, checked_main, pmix_test_main,
  after_wait,
}
use pmix_tests.Driver.Main.Ending.{bind-inverse, EndWell, finish-zero}

ok_inj : (a b : MainEnd) → ok a ≡ ok b → a ≡ b
ok_inj a b h = grind arith

waits_ne : ok waits ≡ ok (returns (pos 0)) → ⊥
waits_ne h = grind arith

exits_ne : ok exits ≡ ok (returns (pos 0)) → ⊥
exits_ne h = grind arith

abort_zero : (a : Bool) (n : ℕ) → (if a then 1 else n) ≡ 0 → (a ≡ false) × (n ≡ 0)
abort_zero a n h = ground arith

one_fails : {V : Type 0} (t : ℕ × Harness V) (g : Harness V) → ok (1, g) ≡ ok t → t.0 ≡ 0 → ⊥
one_fails t g h z = grind arith

module _ {V : Type 0} where
  -- The clients were all seen to end, none of them badly.
  abbrev pub ClientsWell : Harness V → Type 0
  ClientsWell h = (test_terminated h.server.world ≡ true) × (h.server.world.test_abort ≡ false)

  -- The wait for the clients from `h` on ends with all of them well.
  abbrev pub WaitsWell : Env → Started → Harness V → Type 0
  WaitsWell e s h =
      (v : Harness V) × (hang_around e.turns h ≡ ok (over v)) × ClientsWell v × EndWell e s

module _ {V : Type 0} (e : Env) (s : Started) (f : e.finalize.pmix_server_finalize ≡ pos 0) where
  last_wait-zero :
      (test_spawn : Bool) (fails : ℕ) (h : Harness V)
      → last_wait e s test_spawn fails h ≡ ok (returns (pos 0))
      → (fails ≡ 0) × EndWell e s
  unfolding last_wait
  last_wait-zero test_spawn fails h k = elim (Bool-cases (test_spawn && not e.spawned)) [
    | inl c ↦ absurd (waits_ne (rw c at k))
    | inr c ↦
        let (r, _, k1) =
          bind-inverse (cli_wait_all 1000000 e.last_rounds h.server.world)
            (λ r. after_wait (λ k. ok (over k)) h r >>= (λ end. ok (finish e s fails end)))
            (returns (pos 0)) (rw c at k) in
        let (end, _, k2) =
          bind-inverse (after_wait (λ k. ok (over k)) h r) (λ end. ok (finish e s fails end))
            (returns (pos 0)) k1 in
        finish-zero e s fails end f (ok_inj (finish e s fails end) (returns (pos 0)) k2)
  ]

  after_hang-zero :
      (test_spawn : Bool) (fails : ℕ) (h : Harness V)
      → after_hang e s test_spawn fails (over h) ≡ ok (returns (pos 0))
      → (fails ≡ 0) × ClientsWell h × EndWell e s
  unfolding after_hang time_out
  after_hang-zero test_spawn fails h k = elim (Bool-cases (test_terminated h.server.world)) [
    | inl c ↦
        let (z, w) =
          last_wait-zero test_spawn (if h.server.world.test_abort then 1 else fails) h
            (rw c at k) in
        let (a, n) = abort_zero h.server.world.test_abort fails z in (n, (c, a), w)
    | inr c ↦
        let (t, kt, k1) =
          bind-inverse (kill_all h >>= (λ g. ok (1, g)))
            (λ t. last_wait e s test_spawn (if t.1.server.world.test_abort then 1 else t.0) t.1)
            (returns (pos 0)) (rw c at k) in
        let (g, _, kg) = bind-inverse (kill_all h) (λ g. ok (1, g)) t kt in
        let (z, w) =
          last_wait-zero test_spawn (if t.1.server.world.test_abort then 1 else t.0) t.1 k1 in
        absurd (one_fails t g kg (abort_zero t.1.server.world.test_abort t.0 z).1)
  ]

  hang-zero :
      (test_spawn : Bool) (fails : ℕ) (hang : Hang V)
      → after_hang e s test_spawn fails hang ≡ ok (returns (pos 0))
      → (fails ≡ 0) × ((h : Harness V) × (hang ≡ over h) × ClientsWell h × EndWell e s)
  hang-zero test_spawn fails (over h) k =
      let (z, c, w) = after_hang-zero test_spawn fails h k in (z, (h, refl, c, w))
  hang-zero test_spawn fails hang_exits k = unfold after_hang in absurd (exits_ne k)
  hang-zero test_spawn fails hang_waits k = unfold after_hang in absurd (waits_ne k)

  rest-zero :
      (test_spawn : Bool) (c : ℕ × Harness V)
      → (hang_around e.turns c.1 >>= (λ hang. after_hang e s test_spawn c.0 hang))
        ≡ ok (returns (pos 0))
      → (c.0 ≡ 0) × WaitsWell e s c.1
  rest-zero test_spawn c k =
      let (hang, kh, k1) =
        bind-inverse (hang_around e.turns c.1) (λ hang. after_hang e s test_spawn c.0 hang)
          (returns (pos 0)) k in
      let (z, (v, o, cw, w)) = hang-zero test_spawn c.0 hang k1 in (z, (v, kh ∙ ap ok o, cw, w))

  launched-zero :
      (test_spawn : Bool) (lsize : ℕ) (n : ℤ) (h : Harness V)
      → after_launch e s test_spawn lsize (launched n h) ≡ ok (returns (pos 0))
      → (lsize ≡ to_u32 n) × WaitsWell e s h
  unfolding after_launch check_launched
  launched-zero test_spawn lsize n h k = elim (Bool-cases (lsize == to_u32 n)) [
    | inl c ↦ ((==_iff lsize (to_u32 n)).0 c, (rest-zero test_spawn (0, h) (rw c at k)).1)
    | inr c ↦
        let (t, kt, k1) =
          bind-inverse (kill_all h >>= (λ g. ok (1, g)))
            (λ t. hang_around e.turns t.1 >>= (λ hang. after_hang e s test_spawn t.0 hang))
            (returns (pos 0)) (rw c at k) in
        let (g, _, kg) = bind-inverse (kill_all h) (λ g. ok (1, g)) t kt in
        absurd (one_fails t g kg (rest-zero test_spawn t k1).0)
  ]

  launch-zero :
      (test_spawn : Bool) (lsize : ℕ) (l : Launch V)
      → after_launch e s test_spawn lsize l ≡ ok (returns (pos 0))
      → (n : ℤ) × (h : Harness V) × (l ≡ launched n h) × (lsize ≡ to_u32 n) × WaitsWell e s h
  launch-zero test_spawn lsize (launched n h) k =
      let (a, w) = launched-zero test_spawn lsize n h k in (n, h, refl, a, w)
  launch-zero test_spawn lsize mismatch k = unfold after_launch in absurd (grind arith)
  launch-zero test_spawn lsize (in_client argv) k = unfold after_launch in absurd (grind arith)

-- When the executable can be run, `server_init` succeeds and PMIx_server_finalize ends with 0,
-- `main` of the harness returns 0 only if it launched as many clients as its share, was done with the wait
-- for them when all had ended and without an abort of the test, passed the last barrier, and, as server 0,
-- got a sum of 0 from the servers that it waited for.
pub pmix_test_main-verdict :
    (V : Type 0) (p : Params) (e : Env) (s : Started) (share : ℕ)
    → e.binary ≡ executable
    → server_init e.init p.nprocs p.nservers ≡ ok (started s, share)
    → e.finalize.pmix_server_finalize ≡ pos 0
    → pmix_test_main V p e ≡ ok (returns (pos 0))
    → (n : ℤ) × (h : Harness V) × (launch_all p
          (host_of p e s)
          share
          e.launch
          (to_u32 p.nservers)
          p.ns_dist
          (fresh share)
        ≡ ok (launched n h))
      × (share ≡ to_u32 n)
      × WaitsWell e s h
unfolding pmix_test_main checked_main after_init
pmix_test_main-verdict V p e s share b i f k =
    let k0 : checked_main V p e executable ≡ ok (returns (pos 0)) =
      sym (ap (checked_main V p e) b) ∙ k in
    let (l, kl, k1) =
      bind-inverse
        (launch_all {V = V} p (host_of p e s) share e.launch (to_u32 p.nservers) p.ns_dist
          (fresh share))
        (λ l. after_launch e s p.test_spawn share l) (returns (pos 0)) (rw i at k0) in
    let (n, h, o, a, w) = launch-zero e s f p.test_spawn share l k1 in (n, h, kl ∙ ap ok o, a, w)
