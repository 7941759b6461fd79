-- ===== src/Cli/Table/Wait.antt =====
-- `cli_wait_all` of unit/cli_stages.c: what reaping children does to the table, and what the loop's
-- ends mean.
use pmix_tests.Base.{
  Sticks, stick, stuck, ℕ, ◌≡◌, refl, ◌∙◌, Bool, true, false, not, ◌||◌, List, [], ◌∷◌, arith, leb,
  Run, Returns, returns, Returns-bind, Returns-mono, Bool-cases, inl, inr, ◌⊎◌,
}
use pmix_tests.Cli.Phases.{Phase}
use pmix_tests.Cli.Table.{
  World, test_terminated, reap_all, WaitResult, loop_done, no_children, exited, waiting, waiting,
  WaitEnd, none_ready, no_child, other_error, Round, keep_waiting, round_end, wait_loop,
  cli_wait_all,
}
use pmix_tests.Cli.Table.Kill.{Phases}
use pmix_tests.Cli.Table.Reap.{reaped, lost, reap_each}

abbrev pub AllPhases : World → Type 0
AllPhases w = (ps : List Phase) × Phases w.table ps

pub record Later (w v : World) : Type 0 where
  pub phases : AllPhases v
  pub sticky : Sticks w.test_abort v.test_abort
  pub effects : v.effects ≡ w.effects

Later-trans : {u v w : World} → Later u v → Later v w → Later u w
Later-trans a b = record {
  phases = b.phases;
  sticky = stick _ _ (λ h. stuck _ _ b.sticky (stuck _ _ a.sticky h));
  effects = b.effects ∙ a.effects;
}

reap_all-Later : (l : List (ℕ × Bool)) (w : World) → AllPhases w → Returns (Later w) (reap_all l w)
unfolding reap_all
reap_all-Later [] w h = returns (record { phases = h; sticky = stick _ _ (λ a. a); effects = refl })
reap_all-Later ((pid, over) ∷ l) w (ps, h) =
    Returns-bind (reap_each pid over w.test_abort w.effects h) λ v k.
      let first : Later w v = record {
        phases = (reaped pid over ps w.table, k.phases);
        sticky = stick _ _ (λ a. k.aborted ∙ rw a);
        effects = k.effects;
      } in
      Returns-mono (reap_all-Later l v first.phases) λ u r. Later-trans first r

-- Was some round over only after the timeout?
abbrev pub any_late : ℕ → ℕ → List Round → Bool
any_late timeout elapsed [] = not (leb elapsed timeout)
any_late timeout elapsed (r ∷ rs) = not (leb elapsed timeout) || any_late timeout r.elapsed rs

-- What holds at the end, by the way the call ends.
abbrev pub EndOf : WaitResult → Bool → World → Type 0
EndOf loop_done late v = (test_terminated v ≡ true) ⊎ (late ≡ true)
EndOf waiting late v = test_terminated v ≡ false
EndOf _ late v = Unit

pub record Waited (late : Bool) (w : World) (out : World × WaitResult) : Type 0 where
  pub later : Later w out.0
  pub ending : EndOf out.1 late out.0

Later-refl : (w : World) → AllPhases w → Later w w
Later-refl w h = record { phases = h; sticky = stick _ _ (λ a. a); effects = refl }

-- Why the loop stops, and what holds while it goes on.
stopped :
    (timeout elapsed : ℕ) (w : World)
    → keep_waiting timeout elapsed w ≡ false
    → (test_terminated w ≡ true) ⊎ (not (leb elapsed timeout) ≡ true)
unfolding keep_waiting
stopped timeout elapsed w h = ground arith

going :
    (timeout elapsed : ℕ) (w : World)
    → keep_waiting timeout elapsed w ≡ true
    → test_terminated w ≡ false
unfolding keep_waiting
going timeout elapsed w h = ground arith

stop-Waited :
    (late : Bool) (w : World)
    → AllPhases w
    → (test_terminated w ≡ true) ⊎ (late ≡ true)
    → Waited late w (w, loop_done)
stop-Waited late w h why = record { later = Later-refl w h; ending = why }

or_left : (a b : Bool) → a ≡ true → (a || b) ≡ true
or_left a b h = ground arith

or_right : (a b : Bool) → b ≡ true → (a || b) ≡ true
or_right a b h = ground arith

EndOf-widen :
    (more late : Bool) (r : WaitResult) (v : World) → EndOf r late v → EndOf r (more || late) v
EndOf-widen more late loop_done v h = elim h [ inl t ↦ inl t | inr t ↦ inr (or_right more late t) ]
EndOf-widen more late no_children v h = tt
EndOf-widen more late exited v h = tt
EndOf-widen more late waiting v h = h

Waited-widen :
    (late more : Bool) (w v : World) (out : World × WaitResult)
    → Later w v
    → Waited late v out
    → Waited (more || late) w out
Waited-widen late more w v out l k = record {
  later = Later-trans l k.later;
  ending = EndOf-widen more late out.1 out.0 k.ending;
}

round_end-Waited :
    (late : Bool) (again : World → Run (World × WaitResult))
    → ((w : World) → AllPhases w → Returns (Waited late w) (again w))
    → (e : WaitEnd) (w : World) → AllPhases w
    → Returns (Waited late w) (round_end again e w)
unfolding round_end
round_end-Waited late again rec none_ready w h = rec w h
round_end-Waited late again rec no_child w h =
    returns (record { later = Later-refl w h; ending = tt })
round_end-Waited late again rec other_error w h =
    returns (record { later = Later-refl w h; ending = tt })

wait_loop-Waited :
    (timeout elapsed : ℕ) (rounds : List Round) (w : World)
    → AllPhases w
    → Returns (Waited (any_late timeout elapsed rounds) w) (wait_loop timeout elapsed rounds w)
unfolding wait_loop
wait_loop-Waited timeout elapsed [] w h = elim (Bool-cases (keep_waiting timeout elapsed w)) [
  | inl go ↦
      rw go (returns (record { later = Later-refl w h; ending = going timeout elapsed w go }))
  | inr end ↦ rw end (returns (stop-Waited _ w h (stopped timeout elapsed w end)))
]
wait_loop-Waited timeout elapsed (r ∷ rs) w h = elim (Bool-cases (keep_waiting timeout elapsed w)) [
  | inl go ↦ rw go (
      Returns-bind (reap_all-Later r.reaped w h) λ v l.
        Returns-mono
          (round_end-Waited (any_late timeout r.elapsed rs) (wait_loop timeout r.elapsed rs)
            (wait_loop-Waited timeout r.elapsed rs) r.wait_end v l.phases)
          (λ out k. Waited-widen _ _ w v out l k))
  | inr end ↦ rw end (
      returns (
        stop-Waited _ w h
          (elim (stopped timeout elapsed w end) [ inl t ↦ inl t | inr t ↦ inr (or_left _ _ t) ])))
]

-- `cli_wait_all` returns from every table of this program's clients, whatever the children do,
-- with a table of such clients; it makes no system call on its own account and never takes
-- `test_abort` back. Its loop is done only if the test is terminated or a round was over after the
-- timeout, and it goes on waiting only while the test is not terminated.
pub cli_wait_all-Waited :
    (timeout : ℕ) (rounds : List Round) (w : World)
    → AllPhases w
    → Returns (Waited (any_late timeout 0 rounds) w) (cli_wait_all timeout rounds w)
unfolding cli_wait_all
cli_wait_all-Waited timeout rounds w h = wait_loop-Waited timeout 0 rounds w h

-- One process that ended ends exactly its own client: of the clients that were forked or had
-- finalized it terminates those with the process's id, it aborts the test exactly if one of them
-- had not finalized, and all other entries keep their stage.
pub reap_all-reaped :
    (pid : ℕ) (over : Bool) (w : World) {ps : List Phase}
    → Phases w.table ps
    → Returns
        (λ v.
          Phases v.table (reaped pid over ps w.table)
          × (v.test_abort ≡ (w.test_abort || lost pid over ps w.table)))
        (reap_all ((pid, over) ∷ []) w)
unfolding reap_all
reap_all-reaped pid over w h =
    Returns-bind (reap_each pid over w.test_abort w.effects h) λ v k. returns (k.phases, k.aborted)
