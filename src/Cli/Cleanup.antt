-- ===== src/Cli/Cleanup.antt =====
-- `cli_cleanup` of unit/cli_stages.c, for the tables whose stages only go forward.
use pmix_tests.Base.{
  Sticks, stick, stuck, ℕ, zero, suc, ◌+◌, ◌≤◌, ◌<◌, ◌≡◌, refl, ◌∙◌, subst, Bool, true, false, some,
  List, [], ◌∷◌, arith, ltb, get_elem?, length, Run, ok, Returns, returns, Returns-bind,
  Returns-mono, Bool-cases, inl, inr,
}
use pmix_tests.Cli.{
  CliState, fin, disconn, term, state_num, Ns, null, live, freed, CliInfo, Stage, next_of, abort,
  same_state, check_next, close_sd, remove_event, destruct_modex, free_ns, cli_finalize,
  cli_disconnect, cli_terminate, cli_cleanup, cleanup_switch, forked, connected,
}

-- A stage that `cli_cleanup` goes on from lies behind its entry.
abbrev pub Allowed : ℕ → CliState → Type 0
Allowed i fin = i < 3
Allowed i disconn = i < 4
Allowed i term = i < 5
Allowed i _ = Unit

abbrev pub AllowedFrom : ℕ → List CliState → Type 0
AllowedFrom i [] = Unit
AllowedFrom i (x ∷ xs) = Allowed i x × AllowedFrom (suc i) xs

pub record IsOrdered (table : List CliState) : Type 0 where
  pub size : length table ≡ 6
  pub forward : AllowedFrom 0 table

abbrev pub NotFreed : Ns → Type 0
NotFreed (freed _) = ⊥
NotFreed _ = Unit

-- A client on which `cli_cleanup` meets no fault.
pub record IsWf (cli : CliInfo) : Type 0 where
  pub ordered : IsOrdered cli.next_state
  pub in_table : state_num cli.state < 6
  pub named : state_num cli.state < 5 → NotFreed cli.ns
  pub listed : state_num cli.state < 4 → cli.modex ≡ true

get-Allowed :
    (k : ℕ) (xs : List CliState) (i j : ℕ)
    → AllowedFrom k xs
    → i < length xs
    → k + i ≡ j
    → (n : CliState) × (get_elem? xs i ≡ some n) × Allowed j n
get-Allowed k [] i j h lt e = absurd (omega arith)
get-Allowed k (x ∷ xs) zero j h lt e =
    (x, refl, subst (λ t. Allowed t x) (let p : k ≡ j = omega arith in p) h.0)
get-Allowed k (x ∷ xs) (suc i) j h lt e = get-Allowed (suc k) xs i j h.1 (omega arith) (omega arith)

next-Allowed :
    (cli : CliInfo)
    → IsWf cli
    → (n : CliState) × (next_of cli ≡ some n) × Allowed (state_num cli.state) n
unfolding next_of
next-Allowed cli wf =
    get-Allowed 0 cli.next_state (state_num cli.state) (state_num cli.state) wf.ordered.forward
      (omega (arith, wf.ordered.size, wf.in_table)) (omega arith)

-- What a call may do to a client: it keeps the table and never takes `test_abort` back.
pub record Kept (s t : Stage) : Type 0 where
  pub wf : IsWf t.cli
  pub table : t.cli.next_state ≡ s.cli.next_state
  pub sticky : Sticks s.test_abort t.test_abort

Kept-trans : {s t u : Stage} → Kept s t → Kept t u → Kept s u
Kept-trans a b = record {
  wf = b.wf;
  table = b.table ∙ a.table;
  sticky = stick _ _ (λ h. stuck _ _ b.sticky (stuck _ _ a.sticky h));
}

-- What closing the socket and removing the event leave alone.
record SameStage (s t : Stage) : Type 0 where
  modex : t.cli.modex ≡ s.cli.modex
  table : t.cli.next_state ≡ s.cli.next_state
  ns : t.cli.ns ≡ s.cli.ns
  sticky : s.test_abort ≡ true → t.test_abort ≡ true

SameStage-trans : {s t u : Stage} → SameStage s t → SameStage t u → SameStage s u
SameStage-trans a b = record {
  modex = b.modex ∙ a.modex;
  table = b.table ∙ a.table;
  ns = b.ns ∙ a.ns;
  sticky = λ h. b.sticky (a.sticky h);
}

close_sd-SameStage : (s : Stage) → SameStage s (close_sd s)
unfolding close_sd
close_sd-SameStage s = ground arith

remove_event-SameStage : (s : Stage) → SameStage s (remove_event s)
unfolding remove_event
remove_event-SameStage s = ground arith

free_ns-ok : (ns : Ns) → NotFreed ns → (ns' : Ns) × (free_ns ns ≡ ok ns')
unfolding free_ns
free_ns-ok null h = (null, refl)
free_ns-ok (live name) h = (freed name, refl)
free_ns-ok (freed name) h = absurd h

module _ (s : Stage) (wf : IsWf s.cli) where
  check_next-ok :
      (want : CliState)
      → (b : Bool) × (check_next want s ≡ ok (record s { test_abort = b }))
        × (s.test_abort ≡ true → b ≡ true)
  unfolding check_next
  check_next-ok want =
      let (n, e, _) = next-Allowed s.cli wf in
      elim (Bool-cases (same_state want n)) [
        | inl p ↦ (s.test_abort, rw (e, check_next, p), λ h. h)
        | inr p ↦ (true, rw (e, check_next, p), λ h. refl)
      ]

  cli_finalize-Kept :
      state_num s.cli.state < 3 → Returns (λ t. Kept s t × (t.cli.state ≡ fin)) (cli_finalize s)
  unfolding cli_finalize state_num
  cli_finalize-Kept early =
      let (b, e, keep) = check_next-ok fin in
      rw e (
        returns (
          record {
            wf = record {
              ordered = wf.ordered;
              in_table = omega arith;
              named = λ _. wf.named (omega arith);
              listed = λ _. wf.listed (omega arith);
            };
            table = refl;
            sticky = stick _ _ keep;
          },
          refl,
        ))

  cli_terminate-Kept :
      state_num s.cli.state < 5 → Returns (λ t. Kept s t × (t.cli.state ≡ term)) (cli_terminate s)
  unfolding cli_terminate state_num
  cli_terminate-Kept early =
      let (b, e, keep) = check_next-ok term in
      let (ns', f) = free_ns-ok s.cli.ns (wf.named early) in
      rw (e, f)
        (returns (
          record {
            wf = record {
              ordered = wf.ordered;
              in_table = omega arith;
              named = λ h. absurd (omega arith);
              listed = λ h. absurd (omega arith);
            };
            table = refl;
            sticky = stick _ _ keep;
          },
          refl,
        ))

  cli_disconnect-Kept :
      state_num s.cli.state < 4
      → Returns (λ t. Kept s t × (t.cli.state ≡ disconn)) (cli_disconnect s)
  unfolding cli_disconnect state_num
  cli_disconnect-Kept early =
      let (b, e, keep) = check_next-ok disconn in
      let u = remove_event (close_sd (record s { test_abort = b })) in
      let f : SameStage (record s { test_abort = b }) u =
        SameStage-trans (close_sd-SameStage _) (remove_event-SameStage _) in
      let m : u.cli.modex ≡ true = f.modex ∙ wf.listed early in
      rw (e, destruct_modex, m)
        (returns (
          record {
            wf = record {
              ordered = rw f.table wf.ordered;
              in_table = omega arith;
              named = λ _. rw f.ns (wf.named (omega arith));
              listed = λ h. absurd (omega arith);
            };
            table = f.table;
            sticky = stick _ _ (λ h. f.sticky (keep h));
          },
          refl,
        ))

module _ (again : Stage → Run Stage) (s : Stage) (wf : IsWf s.cli)
    (rest : (t : Stage)
      → IsWf t.cli
      → state_num s.cli.state < state_num t.cli.state
      → Returns (λ u. Kept t u) (again t)) where
  abort-Kept : {t : Stage} → Kept s t → Kept s (abort t)
  abort-Kept k = record { wf = k.wf; table = k.table; sticky = stick _ _ (λ _. refl) }

  self : Kept s s
  self = record { wf = wf; table = refl; sticky = stick _ _ (λ h. h) }

  cleanup_switch-Kept :
      (n : CliState)
      → Allowed (state_num s.cli.state) n
      → Returns (λ t. Kept s t) (cleanup_switch again (some n) s)
  unfolding cleanup_switch state_num
  cleanup_switch-Kept forked a = returns self
  cleanup_switch-Kept connected a = returns (record {
    wf = record {
      ordered = wf.ordered;
      in_table = omega arith;
      named = λ h. absurd (omega arith);
      listed = λ h. absurd (omega arith);
    };
    table = refl;
    sticky = stick _ _ (λ _. refl);
  })
  cleanup_switch-Kept fin a =
      Returns-bind (cli_finalize-Kept s wf a) λ t (k, e).
        Returns-bind (rest t k.wf (rw e a)) λ u k2. returns (abort-Kept (Kept-trans k k2))
  cleanup_switch-Kept disconn a =
      Returns-bind (cli_disconnect-Kept s wf a)
        λ t (k, e). Returns-mono (rest t k.wf (rw e a)) λ u k2. Kept-trans k k2
  cleanup_switch-Kept term a = Returns-mono (cli_terminate-Kept s wf a) λ t (k, e). k
  cleanup_switch-Kept _ a = returns (abort-Kept self)

-- With fuel for the stages left, `cli_cleanup` returns, from any well-formed client.
pub cli_cleanup-Kept :
    (fuel : ℕ) (s : Stage)
    → IsWf s.cli
    → 6 ≤ fuel + state_num s.cli.state
    → Returns (λ t. Kept s t) (cli_cleanup fuel s)
unfolding cli_cleanup
cli_cleanup-Kept zero s wf h = absurd (omega (arith, wf.in_table))
cli_cleanup-Kept (suc fuel) s wf h =
    let (n, e, a) = next-Allowed s.cli wf in
    let low : ltb (state_num term) (state_num s.cli.state) ≡ false =
      unfold state_num in ground (arith, wf.in_table) in
    rw (low, e)
      (cleanup_switch-Kept (cli_cleanup fuel) s wf
        (λ t w lt. cli_cleanup-Kept fuel t w (omega arith)) n a)
