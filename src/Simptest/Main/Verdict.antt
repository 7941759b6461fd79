-- ===== src/Simptest/Main/Verdict.antt =====
-- The verdict of simple/simptest.c.
use pmix_tests.Base.{
  ℕ, zero, suc, ◌≡◌, ◌≢◌, ◌⊎◌, refl, false, ◌&&◌, not, Option, none, some, List, [], ◌∷◌, arith,
  All-replicate, ltb, if◌then◌else◌,
}
use pmix_tests.Base.Int.{ℤ, pos, negsuc, eqb_iff, is_negative}
use pmix_tests.Base.Text.{CString}
use pmix_tests.Simptest.{Globals}
use pmix_tests.Simptest.Reap.{
  WaitStatus, Waited, child, nothing, account, mark, set_pid, wait_signal_callback, record_pid,
}
use pmix_tests.Simptest.Reap.Counts.{AllFine, Shown, wait_signal_callback-Shown, record_pid-Shown}
use pmix_tests.Simptest.Main.Ends.{
  not_zero, if_holds, returned, code_zero, Verdict, AllEnded, run-Verdict,
}
use pmix_tests.Simptest.Main.{
  Settings, Env, Child, End, returns, exits, waits, Outcome, signals, launch, finish, wait_children,
  after_launch, allocated, run, simptest_main, parse_args, defaults, is_zero, is_waiting, checked,
  stop, add_started, started_of, started_none,
}

module _ {V : Type 0} where
  signals-Shown : (wss : List (List Waited)) (s : Globals V) → Shown s → Shown (signals wss s)
  unfolding signals
  signals-Shown [] s h = h
  signals-Shown (ws ∷ wss) s h =
      signals-Shown wss (wait_signal_callback ws s) (wait_signal_callback-Shown ws s h)

  -- An outcome that reports a result of 0 only when no child has failed.
  abbrev IsHonest : Outcome V → Type 0
  IsHonest r = (r.end ≡ some (returns (pos 0)) → AllFine r.globals.children) × Shown r.globals

  stop-IsHonest : (rc : ℤ) (s : Globals V) → is_zero rc ≡ false → Shown s → IsHonest (stop rc s)
  stop-IsHonest rc s z h = (λ e. absurd (not_zero rc z e), h)

  launch-IsHonest :
      (o : Settings) (start : ℕ → Child) (k n : ℕ) (s : Globals V)
      → Shown s
      → IsHonest (launch o start k n s)
  unfolding launch
  launch-IsHonest o start zero n s h = (λ e. cc, h)
  launch-IsHonest o start (suc k) n s h =
      let c = start n in
      let early = signals-Shown c.early s h in
      let later = launch o start k (suc n) (record_pid n c.pid (signals c.early s)) in
      let rest : Outcome V = add_started (started_of o n) later in
      let third = if is_negative c.pid then stop (negsuc 0) s else rest in
      let second = if not (is_zero c.register_client) then stop c.register_client s else third in
      if_holds IsHonest (not (is_zero c.setup_fork)) (stop c.setup_fork s) second
        (λ z. stop-IsHonest c.setup_fork s (ground (arith, z)) h)
        λ _.
          if_holds IsHonest (not (is_zero c.register_client)) (stop c.register_client s) third
            (λ z. stop-IsHonest c.register_client s (ground (arith, z)) h)
            λ _.
              if_holds IsHonest (is_negative c.pid) (stop (negsuc 0) s) rest
                (λ z. stop-IsHonest (negsuc 0) s refl h)
                λ _.
                  launch-IsHonest o start k (suc n) (record_pid n c.pid (signals c.early s))
                    (record_pid-Shown n c.pid (signals c.early s) early)

  finish-IsHonest : (rc : ℤ) (r : Outcome V) → Shown r.globals → IsHonest (finish rc r)
  unfolding finish
  finish-IsHonest rc r h = (
    λ e. h (code_zero rc r.globals.exit_code (returned e)),
    λ z. h (code_zero rc r.globals.exit_code z),
  )

  wait_children-IsHonest :
      (e : Env) (r : Outcome V) → Shown r.globals → IsHonest (wait_children e r)
  unfolding wait_children
  wait_children-IsHonest e r h =
      let s = signals e.later r.globals in
      let shown = signals-Shown e.later r.globals h in
      if_holds IsHonest (is_waiting s.wakeup) (record r { end = some waits; globals = s })
        (finish e.server_finalize (record r { globals = s })) (λ _. (λ z. cc, shown))
        λ _. finish-IsHonest e.server_finalize (record r { globals = s }) shown

  after_launch-IsHonest :
      (e : Env) (end : Option End) (r : Outcome V) → IsHonest r → IsHonest (after_launch e end r)
  unfolding after_launch
  after_launch-IsHonest e none r h = wait_children-IsHonest e r h.1
  after_launch-IsHonest e (some end) r h = h

  allocated-AllFine : (o : Settings) (s : Globals V) → AllFine (allocated o s).children
  unfolding allocated
  allocated-AllFine o s =
      All-replicate (λ t. t.exit_code ≡ 0) o.nprocs (record { exit_code = 0; pid = pos 0 }) refl

  abbrev IsFair : Outcome V → Type 0
  IsFair r = r.end ≡ some (returns (pos 0)) → AllFine r.globals.children

  run-IsFair : (o : Settings) (e : Env) (s : Globals V) → IsFair (run o e s)
  unfolding run
  run-IsFair o e s =
      let ready = allocated o s in
      let shown : Shown ready = λ _. allocated-AllFine o s in
      let launched = launch o e.start o.nprocs 0 ready in
      let honest = launch-IsHonest o e.start o.nprocs 0 ready shown in
      let fifth = after_launch e launched.end launched in
      let fourth =
        if not (is_zero e.inventory)
        then started_none (some (exits e.inventory)) ready
        else fifth in
      let third =
        if not (is_zero e.collect_inventory)
        then finish e.server_finalize (started_none none ready)
        else fourth in
      let second =
        if not (is_zero e.thread_start) then started_none (some (exits (pos 1))) s else third in
      let first =
        if not (is_zero e.handler) then started_none (some (exits e.handler)) s else second in
      if_holds IsFair (not (is_zero e.server_init)) (started_none (some (returns e.server_init)) s)
        first (λ z h. absurd (not_zero e.server_init (ground (arith, z)) h))
        λ _.
          if_holds IsFair (not (is_zero e.handler)) (started_none (some (exits e.handler)) s) second
            (λ _ h. cc)
            λ _.
              if_holds IsFair (not (is_zero e.thread_start)) (started_none (some (exits (pos 1))) s)
                third (λ _ h. cc)
                λ _.
                  if_holds IsFair (not (is_zero e.collect_inventory))
                    (finish e.server_finalize (started_none none ready)) fourth
                    (λ _. (finish-IsHonest e.server_finalize (started_none none ready) shown).0)
                    λ _.
                      if_holds IsFair (not (is_zero e.inventory))
                        (started_none (some (exits e.inventory)) ready) fifth (λ _ h. cc)
                        λ _. (after_launch-IsHonest e launched.end launched honest).0

  checked-IsFair : (o : Option Settings) (e : Env) (s : Globals V) → IsFair (checked o e s)
  checked-IsFair none e s = λ h. cc
  checked-IsFair (some o) e s =
      if_holds IsFair (o.cross_version && ltb o.nprocs 2) (started_none (some (exits (pos 1))) s)
        (run o e s) (λ _ h. cc) λ _. run-IsFair o e s

  checked-Verdict :
      (o : Option Settings) (e : Env) (s : Globals V)
      → (checked o e s).end ≡ some (returns (pos 0))
      → (o' : Settings) × (o ≡ some o')
        × (((e.collect_inventory ≢ pos 0) × ((checked o e s).started ≡ [])) ⊎ AllEnded o' e s)
  checked-Verdict none e s h = absurd cc
  checked-Verdict (some o) e s h = (
    o,
    refl,
    if_holds (λ r. Verdict o e s r) (o.cross_version && ltb o.nprocs 2)
        (started_none (some (exits (pos 1))) s) (run o e s) (λ _ k. absurd cc)
        (λ _. run-Verdict o e s) h,
  )

  -- Whatever the arguments, the library and the system answer, and whenever the signal handler runs:
  -- when main returns 0, either the inventory could not be collected and no child was started, or
  -- waitpid has answered at least as many ends of children of the table as there are processes to
  -- start, and each of them was an exit with 0 or a status that is neither an exit nor a signal. The
  -- table has no exit code but 0.
  pub simptest_main-verdict :
      (args : List CString) (e : Env) (s : Globals V)
      → (simptest_main args e s).end ≡ some (returns (pos 0))
      → ((o : Settings) × (parse_args args defaults ≡ some o)
          × (((e.collect_inventory ≢ pos 0) × ((simptest_main args e s).started ≡ []))
              ⊎ AllEnded o e s))
        × AllFine (simptest_main args e s).globals.children
  unfolding simptest_main
  simptest_main-verdict args e s h =
      let o = parse_args args defaults in (checked-Verdict o e s h, checked-IsFair o e s h)

  -- When the inventory cannot be collected and the rest goes well, main returns 0 and starts no
  -- child at all.
  pub run-uncollected :
      (o : Settings) (e : Env) (s : Globals V)
      → e.server_init ≡ pos 0
      → e.handler ≡ pos 0
      → e.thread_start ≡ pos 0
      → e.collect_inventory ≢ pos 0
      → e.server_finalize ≡ pos 0
      → s.exit_code ≡ pos 0
      → ((run o e s).end ≡ some (returns (pos 0))) × ((run o e s).started ≡ [])
  unfolding run finish allocated
  run-uncollected o e s hi hh ht hc hf hs =
      let failed : is_zero e.collect_inventory ≡ false =
        ground (arith, hc, eqb_iff e.collect_inventory (pos 0)) in
      ground (arith, hi, hh, ht, failed, hf, hs)

  -- A single child whose end the handler sees between the fork and the write of its process id, when
  -- nothing is reported afterwards: main waits for it for ever, though every call succeeds.
  pub run-early :
      (o : Settings) (e : Env) (s : Globals V) (k : ℕ) (status : WaitStatus)
      → o.nprocs ≡ 1
      → e.server_init ≡ pos 0
      → e.handler ≡ pos 0
      → e.thread_start ≡ pos 0
      → e.collect_inventory ≡ pos 0
      → e.inventory ≡ pos 0
      → e.start 0 ≡ record {
        setup_fork = pos 0;
        register_client = pos 0;
        pid = pos (suc k);
        early = (child (pos (suc k)) status ∷ nothing ∷ []) ∷ [];
      }
      → e.later ≡ []
      → (run o e s).end ≡ some waits
  unfolding run allocated launch after_launch wait_children signals wait_signal_callback account
      mark record_pid set_pid
  run-early o e s k status hn hi hh ht hc hv hs hl =
      rw (hn, hi, hh, ht, hc, hv, hs, hl) (ground arith)
