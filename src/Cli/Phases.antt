-- ===== src/Cli/Phases.antt =====
-- The phases of a client in unit/cli_stages.c, for the table that `cli_init` writes: the stages
-- forked, finalized and terminated, what `cli_cleanup` does in each of them, and what the events of
-- a client's entry do.
pub mod Steps
pub mod Runs
use pmix_tests.Base.{
  ℕ, suc, ◌<◌, ◌≡◌, refl, sym, subst, Bool, true, false, ◌||◌, ◌==◌, Option, some, none, fault, ap,
  ◌∙◌, inl, inr, ◌⊎◌, Bool-cases, List, [], ◌∷◌, arith, leb, if◌then◌else◌, Run, ok, ◌>>=◌, Returns,
  returns, Returns-value,
}
use pmix_tests.Base.Int.{ℤ, negsuc}
use pmix_tests.Base.Text.{CString, str_eq}
use pmix_tests.Cli.{
  CliState, uninit, forked, fin, term, state_num, Ns, null, live, freed, Stage, order, next_of,
  abort, set_state, same_state, check_next, free_ns, cli_finalize, cli_terminate, cleanup_switch,
  cli_cleanup, same_ns,
}
use pmix_tests.Cli.Cleanup.{NotFreed}

abbrev pub drop_ns : Ns → Ns
drop_ns (live name) = freed name
drop_ns other = other

abbrev pub terminated : Stage → Stage
terminated s = record s {
  cli = record s.cli { pid = negsuc 0; state = term; ns = drop_ns s.cli.ns };
}

-- The end of a client process, by the stage that it ended in.
abbrev pub ended : CliState → Stage → Stage
ended uninit s = s
ended forked s = terminated (abort s)
ended fin s = terminated s
ended _ s = abort s

free_ns-drop : (ns : Ns) → NotFreed ns → free_ns ns ≡ ok (drop_ns ns)
unfolding free_ns
free_ns-drop null h = refl
free_ns-drop (live name) h = refl
free_ns-drop (freed name) h = absurd h

-- `ended` with the state as an argument, so that it can be matched.
cleanup_at :
    (fuel : ℕ) (s : Stage) (st : CliState)
    → s.cli.state ≡ st
    → s.cli.next_state ≡ order
    → (state_num st < 5 → NotFreed s.cli.ns)
    → cli_cleanup (suc (suc fuel)) s ≡ ok (ended st s)
unfolding cli_cleanup cleanup_switch cli_finalize cli_terminate check_next next_of same_state
    state_num
cleanup_at fuel s uninit e t h = rw (e, t)
cleanup_at fuel s forked e t h = rw (e, t, free_ns-drop s.cli.ns (h (omega arith)))
cleanup_at fuel s fin e t h = rw (e, t, free_ns-drop s.cli.ns (h (omega arith)))
cleanup_at fuel s _ e t h = rw (e, t)

-- `cli_cleanup` on the table of `cli_init`: a client that never started is left alone; one that
-- ended before it finalized is terminated, and aborts the test; one that finalized is terminated;
-- any other call aborts the test and leaves the client alone.
pub cleanup-ended :
    (fuel : ℕ) (s : Stage)
    → s.cli.next_state ≡ order
    → (state_num s.cli.state < 5 → NotFreed s.cli.ns)
    → cli_cleanup (suc (suc fuel)) s ≡ ok (ended s.cli.state s)
cleanup-ended fuel s t h = cleanup_at fuel s s.cli.state refl t h

-- The events of the table with one client: it is forked, the callback `finalized` runs for a process,
-- the client is seen to have ended.
pub data ClientEvent : Type 0 where
  launch : ℤ → ℕ → CString → ClientEvent
  finalize : CString → ℕ → ClientEvent
  reap : ClientEvent

-- `launch` is what server_launch_clients writes; `finalize` has the search and the guard of
-- `finalized`.
unfoldable pub client_step : ClientEvent → Stage → Run Stage
client_step (launch pid rank name) s =
    ok (record s { cli = record s.cli { pid = pid; rank = rank; ns = live name; state = forked } })
client_step (finalize nspace rank) s =
    let found = if leb (state_num term) (state_num s.cli.state) then ok s else cli_finalize s in
    if rank == s.cli.rank
    then (do same ← same_ns nspace s.cli.ns; if same then found else ok s)
    else ok s
client_step reap s = cli_cleanup 6 s

unfoldable pub client_run : Stage → List ClientEvent → Run Stage
client_run s [] = ok s
client_run s (e ∷ es) = do t ← client_step e s; client_run t es

-- The stages as the test means them.
pub data Phase : Type 0 where
  idle running finished gone : Phase

-- A phase, the rank and the namespace of the client, and whether the test is aborted.
abbrev pub View : Type 0
View = Phase × ℕ × CString × Bool

-- `finalized` for the rank of the client: it cannot read the namespace of one that has not been
-- forked, or that has ended.
abbrev pub hit : CString → View → Option View
hit nspace (idle, r, n, b) = none
hit nspace (running, r, n, b) = some (if str_eq nspace n then finished else running, r, n, b)
hit nspace (finished, r, n, b) = some (finished, r, n, str_eq nspace n || b)
hit nspace (gone, r, n, b) = none

-- What an event does to the view; `none` if the namespace is read where it must not be.
abbrev pub phase_step : ClientEvent → View → Option View
phase_step (launch _ rank name) (p, r, n, b) = some (running, rank, name, b)
phase_step (finalize nspace rank) (p, r, n, b) =
    if rank == r then hit nspace (p, r, n, b) else some (p, r, n, b)
phase_step reap (idle, r, n, b) = some (idle, r, n, b)
phase_step reap (running, r, n, b) = some (gone, r, n, true)
phase_step reap (finished, r, n, b) = some (gone, r, n, b)
phase_step reap (gone, r, n, b) = some (gone, r, n, true)

abbrev pub ns_of : Phase → CString → Ns
ns_of idle n = null
ns_of running n = live n
ns_of finished n = live n
ns_of gone n = freed n

abbrev pub state_of : Phase → CliState
state_of idle = uninit
state_of running = forked
state_of finished = fin
state_of gone = term

pub record Shows (s : Stage) (v : View) : Type 0 where
  pub state : s.cli.state ≡ state_of v.0
  pub table : s.cli.next_state ≡ order
  pub rank : s.cli.rank ≡ v.1
  pub ns : s.cli.ns ≡ ns_of v.0 v.2
  pub aborted : s.test_abort ≡ v.3

pub cli_finalize-forked :
    (s : Stage)
    → s.cli.state ≡ forked
    → s.cli.next_state ≡ order
    → cli_finalize s ≡ ok (set_state fin s)
unfolding cli_finalize check_next next_of same_state state_num
cli_finalize-forked s e t = rw (e, t)

-- A read of a name that is not there.
abbrev pub NoName : Ns → Type 0
NoName (live name) = ⊥
NoName _ = Unit {0}

abbrev pub IsDangling : ClientEvent → Stage → Type 0
IsDangling (finalize nspace rank) s = ((rank == s.cli.rank) ≡ true) × NoName s.cli.ns
IsDangling _ s = ⊥

abbrev pub StepShows : ClientEvent → Stage → Option View → Type 0
StepShows e s (some v) = Returns (λ t. Shows t v) (client_step e s)
StepShows e s none = (client_step e s ≡ fault) × IsDangling e s
