-- ===== src/Cli/Table.antt =====
-- The functions of unit/cli_stages.c that go over the whole table of clients: `test_terminated`,
-- `cli_wait_all` and `cli_kill_all`. A `World` is the table with the globals beside it.
-- What the system answers in one round of `cli_wait_all` is a `Round`: the children that `waitpid`
-- reaps, how its calls end, and the microseconds since the start when the round is over.
pub mod Kill
pub mod Terminated
pub mod Reap
pub mod Wait
use pmix_tests.Base.{
  ℕ, Bool, true, false, not, ◌&&◌, ◌||◌, List, [], ◌∷◌, ltb, leb, if◌then◌else◌, Run, ok, ◌>>=◌,
}
use pmix_tests.Base.Int.{ℤ, pos, eqb}
use pmix_tests.Cli.{
  CliInfo, Stage, Effect, kill, uninit, term, state_num, same_state, emit, cli_cleanup,
}

pub record World : Type 0 where
  pub table : List CliInfo
  pub test_abort : Bool
  pub effects : List Effect

-- The loop `for(i=0; i < cli_info_cnt; i++)` with a body that looks at entry `i` alone.
unfoldable pub for_each : (Stage → Run Stage) → List CliInfo → Bool → List Effect → Run World
for_each body [] a es = ok (record { table = []; test_abort = a; effects = es })
for_each body (c ∷ cs) a es = do
  s ← body (record { cli = c; test_abort = a; effects = es })
  w ← for_each body cs s.test_abort s.effects
  ok (record w { table = s.cli ∷ w.table })

abbrev pub sweep : (Stage → Run Stage) → World → Run World
sweep body w = for_each body w.table w.test_abort w.effects

all_terminated : Bool → List CliInfo → Bool
all_terminated ret [] = ret
all_terminated ret (c ∷ cs) = all_terminated (ret && leb (state_num term) (state_num c.state)) cs

unfoldable pub test_terminated : World → Bool
unfolding all_terminated
test_terminated w = all_terminated true w.table || w.test_abort

-- `cli_cleanup` recurs at most this often on a table whose stages go forward.
abbrev pub cleanup_fuel : ℕ
cleanup_fuel = 6

-- The body of `cli_wait_all` for one client, when `waitpid` returned `pid`; `ended` is
-- `WIFEXITED(status) || WIFSIGNALED(status)`.
unfoldable pub reap_one : ℤ → Bool → Stage → Run Stage
reap_one pid ended s =
    if eqb s.cli.pid pid then (if ended then cli_cleanup cleanup_fuel s else ok s) else ok s

pub data WaitEnd : Type 0 where
  none_ready no_child other_error : WaitEnd

pub record Round : Type 0 where
  pub reaped : List (ℕ × Bool)
  pub wait_end : WaitEnd
  pub elapsed : ℕ

unfoldable pub reap_all : List (ℕ × Bool) → World → Run World
unfolding reap_one
reap_all [] w = ok w
reap_all ((pid, ended) ∷ rest) w = do w' ← sweep (reap_one (pos pid) ended) w; reap_all rest w'

-- How a call of `cli_wait_all` ends: its loop's test fails, `waitpid` knows no child, it exits the
-- program, or it is still in its loop when the rounds are over.
pub data WaitResult : Type 0 where
  loop_done no_children exited waiting : WaitResult

-- The test of the loop `while( !test_terminated() && ( timeout >= (cur_time - start_time) ) )`.
unfoldable pub keep_waiting : ℕ → ℕ → World → Bool
keep_waiting timeout elapsed w = not (test_terminated w) && leb elapsed timeout

-- What follows the inner loop; `again` is the next round of the outer one.
unfoldable pub round_end :
    (World → Run (World × WaitResult)) → WaitEnd → World → Run (World × WaitResult)
round_end again none_ready w = again w
round_end again no_child w = ok (w, no_children)
round_end again other_error w = ok (w, exited)

unfoldable pub wait_loop : ℕ → ℕ → List Round → World → Run (World × WaitResult)
wait_loop timeout elapsed [] w =
    if keep_waiting timeout elapsed w then ok (w, waiting) else ok (w, loop_done)
wait_loop timeout elapsed (r ∷ rs) w =
    let round = (do
      w' ← reap_all r.reaped w
      round_end (wait_loop timeout r.elapsed rs) r.wait_end w') in
    if keep_waiting timeout elapsed w then round else ok (w, loop_done)

unfoldable pub cli_wait_all : ℕ → List Round → World → Run (World × WaitResult)
unfolding wait_loop
cli_wait_all timeout rounds w = wait_loop timeout 0 rounds w

unfoldable pub kill_one : Stage → Run Stage
kill_one s =
    if same_state uninit s.cli.state
    then ok s
    else if leb (state_num term) (state_num s.cli.state)
    then ok s
    else cli_cleanup cleanup_fuel (emit (kill s.cli.pid) s)

unfoldable pub cli_kill_all : World → Run World
unfolding kill_one
cli_kill_all w = sweep kill_one w
