-- ===== src/Simptest/Main/Ends.antt =====
-- The ends of children that `main` of simple/simptest.c has taken when it returns.
use pmix_tests.Base.{
  ℕ, zero, suc, ◌≤◌, ◌≡◌, ◌≢◌, ◌⊎◌, inl, inr, refl, sym, Bool, true, false, not, Option, none, some,
  List, [], ◌∷◌, ◌++◌, length, arith, All, if◌then◌else◌, Bool-cases,
}
use pmix_tests.Base.Int.{ℤ, pos, negsuc, eqb_iff, is_negative}
use pmix_tests.Simptest.{Globals}
use pmix_tests.Simptest.Reap.{WaitStatus, Waited, wait_signal_callback, record_pid}
use pmix_tests.Simptest.Reap.Reported.{
  taken, IsFine, left, Reports, Reports-trans, wait_signal_callback-Reports,
}
use pmix_tests.Simptest.Main.{
  Settings, Env, Child, End, returns, exits, waits, Outcome, signals, launch, finish, wait_children,
  after_launch, allocated, run, is_zero, is_waiting, stop, add_started, started_of, started_none,
}

pub not_zero :
    (rc : ℤ)
    → is_zero rc ≡ false
    → ◌≢◌ {A = Option End} (some (returns rc)) (some (returns (pos 0)))
not_zero (pos zero) h e = cc
not_zero (pos (suc n)) h e = cc
not_zero (negsuc n) h e = cc

pub if_holds :
    {A : Type 0} (P : A → Type 0) (b : Bool) (x y : A)
    → (b ≡ true → P x)
    → (b ≡ false → P y)
    → P (if b then x else y)
if_holds P true x y hx hy = hx refl
if_holds P false x y hx hy = hy refl

pub returned : {x y : ℤ} → ◌≡◌ {A = Option End} (some (returns x)) (some (returns y)) → x ≡ y
returned e = cc

pub code_zero : (rc code : ℤ) → (if is_zero rc then code else rc) ≡ pos 0 → code ≡ pos 0
code_zero rc code h = ground (arith, h, eqb_iff rc (pos 0))

not_waiting : (z : ℤ) → is_waiting z ≡ false → left z ≡ 0
not_waiting (pos zero) h = refl
not_waiting (pos (suc n)) h = cc
not_waiting (negsuc n) h = refl

module _ {V : Type 0} where
  -- The ends that the runs of the signal handler take.
  unfoldable pub signals_taken : List (List Waited) → Globals V → List WaitStatus
  signals_taken [] s = []
  signals_taken (ws ∷ wss) s = taken ws s.children ++ signals_taken wss (wait_signal_callback ws s)

  -- Those taken while `k` children are started, from number `n` on.
  unfoldable pub launch_taken : (ℕ → Child) → ℕ → ℕ → Globals V → List WaitStatus
  launch_taken start zero n s = []
  launch_taken start (suc k) n s =
      let c = start n in
      signals_taken c.early s
      ++ launch_taken start k (suc n) (record_pid n c.pid (signals c.early s))

  -- All ends of children of the table, in the order in which waitpid has answered them.
  unfoldable pub ends_taken : Settings → Env → Globals V → List WaitStatus
  ends_taken o e s =
      let ready = allocated o s in
      launch_taken e.start o.nprocs 0 ready
      ++ signals_taken e.later (launch o e.start o.nprocs 0 ready).globals

  signals-Reports :
      (wss : List (List Waited)) (s : Globals V) → Reports (signals_taken wss s) s (signals wss s)
  unfolding signals signals_taken
  signals-Reports [] s = ((λ z. (z, tt)), omega arith)
  signals-Reports (ws ∷ wss) s =
      let s1 = wait_signal_callback ws s in
      Reports-trans (taken ws s.children) (signals_taken wss s1) s s1 (signals wss s1)
        (wait_signal_callback-Reports ws s) (signals-Reports wss s1)

  record_pid-Reports :
      (n : ℕ) (pid : ℤ) (statuses : List WaitStatus) (s s' : Globals V)
      → Reports statuses (record_pid n pid s) s'
      → Reports statuses s s'
  unfolding record_pid
  record_pid-Reports n pid statuses s s' h = h

  -- The loop that starts the children goes on, with their ends taken, or ends main with an error.
  abbrev Launches : List WaitStatus → Globals V → Outcome V → Type 0
  Launches statuses s r =
      (r.end ≢ some (returns (pos 0))) × (r.end ≡ none → Reports statuses s r.globals)

  stop-Launches :
      (statuses : List WaitStatus) (rc : ℤ) (s : Globals V)
      → is_zero rc ≡ false
      → Launches statuses s (stop rc s)
  stop-Launches statuses rc s z = (not_zero rc z, λ e. cc)

  launch-Launches :
      (o : Settings) (start : ℕ → Child) (k n : ℕ) (s : Globals V)
      → Launches (launch_taken start k n s) s (launch o start k n s)
  unfolding launch launch_taken
  launch-Launches o start zero n s = ((λ e. cc), (λ e. ((λ z. (z, tt)), omega arith)))
  launch-Launches o start (suc k) n s =
      let c = start n in
      let s1 = signals c.early s in
      let s2 = record_pid n c.pid s1 in
      let more = launch_taken start k (suc n) s2 in
      let all = signals_taken c.early s ++ more in
      let later = launch o start k (suc n) s2 in
      let rest : Outcome V = add_started (started_of o n) later in
      let third = if is_negative c.pid then stop (negsuc 0) s else rest in
      let second = if not (is_zero c.register_client) then stop c.register_client s else third in
      let (no_zero, reports) = launch-Launches o start k (suc n) s2 in
      if_holds (Launches all s) (not (is_zero c.setup_fork)) (stop c.setup_fork s) second
        (λ z. stop-Launches all c.setup_fork s (ground (arith, z)))
        λ _.
          if_holds (Launches all s) (not (is_zero c.register_client)) (stop c.register_client s)
            third (λ z. stop-Launches all c.register_client s (ground (arith, z)))
            λ _.
              if_holds (Launches all s) (is_negative c.pid) (stop (negsuc 0) s) rest
                (λ z. stop-Launches all (negsuc 0) s refl)
                λ _. (
                  no_zero,
                  (λ e.
                      Reports-trans (signals_taken c.early s) more s s1 later.globals
                        (signals-Reports c.early s)
                        (record_pid-Reports n c.pid more s1 later.globals (reports e))),
                )

  -- Every end taken is fine, and there are as many as children at least.
  abbrev pub AllEnded : Settings → Env → Globals V → Type 0
  AllEnded o e s = All IsFine (ends_taken o e s) × (o.nprocs ≤ length (ends_taken o e s))

  wait_children-AllEnded :
      (o : Settings) (e : Env) (s : Globals V) (r : Outcome V)
      → Reports (launch_taken e.start o.nprocs 0 (allocated o s)) (allocated o s) r.globals
      → r.globals ≡ (launch o e.start o.nprocs 0 (allocated o s)).globals
      → (wait_children e r).end ≡ some (returns (pos 0))
      → AllEnded o e s
  unfolding wait_children ends_taken finish allocated
  wait_children-AllEnded o e s r reports same h =
      let t = signals e.later r.globals in
      let first = launch_taken e.start o.nprocs 0 (allocated o s) in
      let (zero_code, count) =
        Reports-trans first (signals_taken e.later r.globals) (allocated o s) r.globals t reports
          (signals-Reports e.later r.globals) in
      elim (Bool-cases (is_waiting t.wakeup)) [
        | inl w ↦ absurd (let stuck : some waits ≡ some (returns (pos 0)) = rw w at h in cc)
        | inr w ↦
            let ended = rw w at h in
            let none_left = not_waiting t.wakeup w in
            let (_, fine) = zero_code (code_zero e.server_finalize t.exit_code (returned ended)) in
            rw (sym same) (fine, omega arith)
      ]

  -- What a return of 0 shows.
  abbrev pub Verdict : Settings → Env → Globals V → Outcome V → Type 0
  Verdict o e s r =
      r.end ≡ some (returns (pos 0))
      → ((e.collect_inventory ≢ pos 0) × (r.started ≡ [])) ⊎ AllEnded o e s

  after_launch-Verdict :
      (o : Settings) (e : Env) (s : Globals V) (end : Option End)
      → end ≡ (launch o e.start o.nprocs 0 (allocated o s)).end
      → Verdict o e s (after_launch e end (launch o e.start o.nprocs 0 (allocated o s)))
  unfolding after_launch
  after_launch-Verdict o e s none same h =
      let r = launch o e.start o.nprocs 0 (allocated o s) in
      let (_, reports) = launch-Launches o e.start o.nprocs 0 (allocated o s) in
      inr (wait_children-AllEnded o e s r (reports (sym same)) refl h)
  after_launch-Verdict o e s (some end) same h =
      absurd ((launch-Launches o e.start o.nprocs 0 (allocated o s)).0 h)

  pub run-Verdict : (o : Settings) (e : Env) (s : Globals V) → Verdict o e s (run o e s)
  unfolding run finish
  run-Verdict o e s =
      let P = Verdict o e s in
      let ready = allocated o s in
      let launched = launch o e.start o.nprocs 0 ready in
      let fifth = after_launch e launched.end launched in
      let fourth =
        if not (is_zero e.inventory)
        then started_none (some (exits e.inventory)) ready
        else fifth in
      let third =
        if not (is_zero e.collect_inventory)
        then finish e.server_finalize (started_none none ready)
        else fourth in
      let second =
        if not (is_zero e.thread_start) then started_none (some (exits (pos 1))) s else third in
      let first =
        if not (is_zero e.handler) then started_none (some (exits e.handler)) s else second in
      if_holds P (not (is_zero e.server_init)) (started_none (some (returns e.server_init)) s) first
        (λ z h. absurd (not_zero e.server_init (ground (arith, z)) h))
        λ _.
          if_holds P (not (is_zero e.handler)) (started_none (some (exits e.handler)) s) second
            (λ _ h. cc)
            λ _.
              if_holds P (not (is_zero e.thread_start)) (started_none (some (exits (pos 1))) s)
                third (λ _ h. cc)
                λ _.
                  if_holds P (not (is_zero e.collect_inventory))
                    (finish e.server_finalize (started_none none ready)) fourth
                    (λ z h. inl ((λ e0. ground (arith, z, e0)), refl))
                    λ _.
                      if_holds P (not (is_zero e.inventory))
                        (started_none (some (exits e.inventory)) ready) fifth (λ _ h. cc)
                        λ _. after_launch-Verdict o e s launched.end refl
