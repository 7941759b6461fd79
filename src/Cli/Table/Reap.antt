-- ===== src/Cli/Table/Reap.antt =====
-- What the end of one client process does to the table, in `cli_wait_all` of unit/cli_stages.c.
use mathlib.Core.Bool.{or_assoc, or-false}
use pmix_tests.Base.{
  ℕ, ◌≡◌, refl, sym, ◌∙◌, Bool, true, false, ◌&&◌, ◌||◌, List, [], ◌∷◌, arith, if◌then◌else◌, ok,
  Returns, returns, Returns-bind, Bool-cases, inl, inr,
}
use pmix_tests.Base.Int.{pos, eqb}
use pmix_tests.Cli.{CliInfo, Stage, Effect, state_num, abort}
use pmix_tests.Cli.Phases.{Phase, idle, running, finished, gone, terminated, cleanup-ended}
use pmix_tests.Cli.Table.{World, for_each, reap_one}
use pmix_tests.Cli.Table.Kill.{InPhase, Phases, nil, cons, is_live, is_running}

-- Does the end of process `pid` end this client?
abbrev hits : ℕ → Bool → Phase → CliInfo → Bool
hits pid over p c = is_live p && (eqb c.pid (pos pid) && over)

-- The phases after the end of one process.
abbrev pub reaped : ℕ → Bool → List Phase → List CliInfo → List Phase
reaped pid over (p ∷ ps) (c ∷ cs) = (if hits pid over p c then gone else p) ∷ reaped pid over ps cs
reaped pid over _ _ = []

-- Was a client that had not finalized among those that ended?
abbrev pub lost : ℕ → Bool → List Phase → List CliInfo → Bool
lost pid over (p ∷ ps) (c ∷ cs) =
    (is_running p && (eqb c.pid (pos pid) && over)) || lost pid over ps cs
lost pid over _ _ = false

record Reaped (pid : ℕ) (over : Bool) (p : Phase) (s t : Stage) : Type 0 where
  phase : InPhase t.cli (if hits pid over p s.cli then gone else p)
  aborted : t.test_abort ≡ (s.test_abort || (is_running p && (eqb s.cli.pid (pos pid) && over)))
  effects : t.effects ≡ s.effects

-- A client that is not the one that ended, or that only stopped.
reap_skip :
    (pid : ℕ) (over : Bool) (p : Phase) (s : Stage)
    → InPhase s.cli p
    → (eqb s.cli.pid (pos pid) && over) ≡ false
    → Returns (Reaped pid over p s) (reap_one (pos pid) over s)
reap_skip pid over p s h m =
    let e : reap_one (pos pid) over s ≡ ok s = unfold reap_one in ground arith in
    rw e (returns (record { phase = ground arith; aborted = ground arith; effects = refl }))

-- The client that ended.
reap_hit :
    (pid : ℕ) (over : Bool) (p : Phase) (s : Stage)
    → InPhase s.cli p
    → is_live p ≡ true
    → (eqb s.cli.pid (pos pid) && over) ≡ true
    → Returns (Reaped pid over p s) (reap_one (pos pid) over s)
unfolding state_num
reap_hit pid over idle s h l m = cc
reap_hit pid over gone s h l m = cc
reap_hit pid over running s h l m =
    let e : reap_one (pos pid) over s ≡ ok (terminated (abort s)) =
      unfold reap_one in ground (arith, cleanup-ended 4 s h.table h.named) in
    rw e (
      returns (record {
        phase = rw m (record {
          state = refl;
          table = h.table;
          named = λ c. absurd (omega arith);
          no_pid = λ _. refl;
        });
        aborted = ground arith;
        effects = refl;
      }))
reap_hit pid over finished s h l m =
    let e : reap_one (pos pid) over s ≡ ok (terminated s) =
      unfold reap_one in ground (arith, cleanup-ended 4 s h.table h.named) in
    rw e (
      returns (record {
        phase = rw m (record {
          state = refl;
          table = h.table;
          named = λ c. absurd (omega arith);
          no_pid = λ _. refl;
        });
        aborted = ground arith;
        effects = refl;
      }))

reap_at :
    (pid : ℕ) (over : Bool) (p : Phase) (s : Stage)
    → InPhase s.cli p
    → Returns (Reaped pid over p s) (reap_one (pos pid) over s)
reap_at pid over p s h = elim (Bool-cases (eqb s.cli.pid (pos pid) && over)) [
  | inr m ↦ reap_skip pid over p s h m
  | inl m ↦ elim (Bool-cases (is_live p)) [
    | inl l ↦ reap_hit pid over p s h l m
    | inr d ↦ absurd (ground (arith, h.no_pid d))
  ]
]

-- The outcome of a call over the table: the phases, the flag and the system calls after it.
pub record Swept (ps : List Phase) (a : Bool) (es : List Effect) (w : World) : Type 0 where
  pub phases : Phases w.table ps
  pub aborted : w.test_abort ≡ a
  pub effects : w.effects ≡ es

pub reap_each :
    (pid : ℕ) (over : Bool) (a : Bool) (es : List Effect) {ps : List Phase} {cs : List CliInfo}
    → Phases cs ps
    → Returns
        (Swept (reaped pid over ps cs) (a || lost pid over ps cs) es)
        (for_each (reap_one (pos pid) over) cs a es)
unfolding for_each
reap_each pid over a es nil =
    returns (record { phases = nil; aborted = sym (or-false a); effects = refl })
reap_each pid over a es (cons {c} {cs} {p} {ps} h hs) =
    Returns-bind (reap_at pid over p (record { cli = c; test_abort = a; effects = es }) h) λ s r.
      Returns-bind (reap_each pid over s.test_abort s.effects hs) λ w k. returns (record {
        phases = cons r.phase k.phases;
        aborted = k.aborted ∙ rw (r.aborted, or_assoc);
        effects = k.effects ∙ r.effects;
      })
