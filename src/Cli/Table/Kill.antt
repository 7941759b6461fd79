-- ===== src/Cli/Table/Kill.antt =====
-- `cli_kill_all` of unit/cli_stages.c, over a table of clients in the stages that the test uses.
use mathlib.Core.Bool.{or_assoc}
use mathlib.Core.List.{append-nil, append_assoc}
use pmix_tests.Base.{◌<◌, ◌≡◌, Bool, true, false, ◌||◌, List, [], ◌∷◌, ◌++◌, arith, ok}
use pmix_tests.Base.Int.{negsuc}
use pmix_tests.Cli.{CliInfo, Stage, Effect, kill, term, state_num, same_state, order, emit}
use pmix_tests.Cli.Cleanup.{NotFreed}
use pmix_tests.Cli.Phases.{Phase, idle, running, finished, gone, state_of, drop_ns, cleanup-ended}
use pmix_tests.Cli.Table.{World, for_each, kill_one, cli_kill_all}

-- The phases in which a client process may still run.
abbrev pub is_live : Phase → Bool
is_live running = true
is_live finished = true
is_live _ = false

-- An entry in one of the four stages that a client of this program can be in.
pub record InPhase (c : CliInfo) (p : Phase) : Type 0 where
  pub state : c.state ≡ state_of p
  pub table : c.next_state ≡ order
  pub named : state_num c.state < 5 → NotFreed c.ns
  pub no_pid : is_live p ≡ false → c.pid ≡ negsuc 0

-- The phases of a table, entry by entry.
pub data Phases : List CliInfo → List Phase → Type 0 where
  nil : Phases [] []
  cons :
      {c : CliInfo} {cs : List CliInfo} {p : Phase} {ps : List Phase}
      → InPhase c p
      → Phases cs ps
      → Phases (c ∷ cs) (p ∷ ps)

abbrev pub end_cli : CliInfo → CliInfo
end_cli c = record c { pid = negsuc 0; state = term; ns = drop_ns c.ns }

-- What killing does to an entry, which clients get the signal, and which of them abort the test.
abbrev pub killed : Phase → CliInfo → CliInfo
killed idle c = c
killed running c = end_cli c
killed finished c = end_cli c
killed gone c = c

abbrev pub signals : Phase → CliInfo → List Effect
signals idle c = []
signals running c = kill c.pid ∷ []
signals finished c = kill c.pid ∷ []
signals gone c = []

abbrev pub killed_all : List Phase → List CliInfo → List CliInfo
killed_all (p ∷ ps) (c ∷ cs) = killed p c ∷ killed_all ps cs
killed_all _ _ = []

abbrev pub signals_all : List Phase → List CliInfo → List Effect
signals_all (p ∷ ps) (c ∷ cs) = signals p c ++ signals_all ps cs
signals_all _ _ = []

abbrev pub is_running : Phase → Bool
is_running running = true
is_running _ = false

abbrev pub any_running : List Phase → Bool
any_running [] = false
any_running (p ∷ ps) = is_running p || any_running ps

kill_at :
    (p : Phase) (s : Stage)
    → InPhase s.cli p
    → kill_one s
      ≡ ok (record {
        cli = killed p s.cli;
        test_abort = s.test_abort || is_running p;
        effects = s.effects ++ signals p s.cli;
      })
unfolding kill_one same_state state_num
kill_at idle s h = ground (arith, append-nil s.effects)
kill_at running s h = ground (arith, cleanup-ended 4 (emit (kill s.cli.pid) s) h.table h.named)
kill_at finished s h = ground (arith, cleanup-ended 4 (emit (kill s.cli.pid) s) h.table h.named)
kill_at gone s h = ground (arith, append-nil s.effects)

kill_each :
    (a : Bool) (es : List Effect) {ps : List Phase} {cs : List CliInfo}
    → Phases cs ps
    → for_each kill_one cs a es
      ≡ ok (record {
        table = killed_all ps cs;
        test_abort = a || any_running ps;
        effects = es ++ signals_all ps cs;
      })
unfolding for_each
kill_each a es nil = ground (arith, append-nil es)
kill_each a es (cons {c} {cs} {p} {ps} h hs) = rw (
  kill_at p (record { cli = c; test_abort = a; effects = es }) h,
  kill_each (a || is_running p) (es ++ signals p c) hs,
  or_assoc,
  append_assoc,
)

-- Over clients in the stages of this program, `cli_kill_all` returns; it kills the processes of
-- the forked and finalized clients, in the order of the table, terminates their entries, leaves
-- the others as they are, and sets `test_abort` if one of them had not finalized.
pub cli_kill_all-killed :
    (w : World) {ps : List Phase}
    → Phases w.table ps
    → cli_kill_all w
      ≡ ok (record {
        table = killed_all ps w.table;
        test_abort = w.test_abort || any_running ps;
        effects = w.effects ++ signals_all ps w.table;
      })
unfolding cli_kill_all
cli_kill_all-killed w h = kill_each w.test_abort w.effects h
