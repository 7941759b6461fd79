-- ===== src/Cli/Table/Terminated.antt =====
-- `test_terminated` of unit/cli_stages.c, and what `cli_kill_all` does for it.
use pmix_tests.Base.{
  ◌≤◌, ◌≡◌, refl, ◌↔◌, ◌⊎◌, inl, inr, Bool, true, ◌&&◌, List, [], ◌∷◌, arith, leb, All, Returns,
  returns, Bool-cases,
}
use pmix_tests.Cli.{CliInfo, term, state_num}
use pmix_tests.Cli.Phases.{Phase, idle, running, finished, gone}
use pmix_tests.Cli.Table.{World, all_terminated, test_terminated, cli_kill_all}
use pmix_tests.Cli.Table.Kill.{Phases, nil, cons, killed_all, cli_kill_all-killed}

abbrev pub IsOver : CliInfo → Type 0
IsOver c = state_num term ≤ state_num c.state

all_terminated-All :
    (ret : Bool) (cs : List CliInfo) → all_terminated ret cs ≡ true → (ret ≡ true) × All IsOver cs
unfolding all_terminated
all_terminated-All ret [] h = (h, tt)
all_terminated-All ret (c ∷ cs) h =
    let (both, rest) = all_terminated-All (ret && leb (state_num term) (state_num c.state)) cs h in
    (ground arith, (ground arith, rest))

All-all_terminated : (cs : List CliInfo) → All IsOver cs → all_terminated true cs ≡ true
unfolding all_terminated
All-all_terminated [] h = refl
All-all_terminated (c ∷ cs) (here, rest) =
    let e : (true && leb (state_num term) (state_num c.state)) ≡ true = ground arith in
    rw e (All-all_terminated cs rest)

-- `test_terminated` says yes exactly if the test is aborted or every client is terminated.
pub test_terminated_iff :
    (w : World) → (test_terminated w ≡ true) ↔ ((All IsOver w.table) ⊎ (w.test_abort ≡ true))
unfolding test_terminated
test_terminated_iff w = (
  λ h. elim (Bool-cases (all_terminated true w.table)) [
    | inl e ↦ inl (all_terminated-All true w.table e).1
    | inr e ↦ inr (ground arith)
  ],
  λ h. elim h [ inl all ↦ rw (All-all_terminated w.table all) | inr a ↦ ground arith ],
)

abbrev pub NoneIdle : List Phase → Type 0
NoneIdle [] = Unit
NoneIdle (idle ∷ ps) = ⊥
NoneIdle (_ ∷ ps) = NoneIdle ps

killed_all-IsOver :
    {cs : List CliInfo} {ps : List Phase}
    → Phases cs ps
    → NoneIdle ps
    → All IsOver (killed_all ps cs)
unfolding state_num
killed_all-IsOver nil n = tt
killed_all-IsOver (cons {p = idle} h hs) n = absurd n
killed_all-IsOver (cons {p = running} h hs) n = (omega arith, killed_all-IsOver hs n)
killed_all-IsOver (cons {p = finished} h hs) n = (omega arith, killed_all-IsOver hs n)
killed_all-IsOver (cons {p = gone} h hs) n = (rw h.state (omega arith), killed_all-IsOver hs n)

-- When every client was started, the test is terminated after `cli_kill_all`.
pub test_terminated-cli_kill_all :
    (w : World) {ps : List Phase}
    → Phases w.table ps
    → NoneIdle ps
    → Returns (λ v. test_terminated v ≡ true) (cli_kill_all w)
test_terminated-cli_kill_all w h n =
    rw (cli_kill_all-killed w h) (returns ((test_terminated_iff _).1 (inl (killed_all-IsOver h n))))
