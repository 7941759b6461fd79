-- ===== src/Simptest/Reap.antt =====
-- `wait_signal_callback` of simple/simptest.c, which runs in the progress thread, and the order in
-- which it and the loop of `main` that starts the children use the table.
pub mod Counts
pub mod Reported
use pmix_tests.Base.{
  ℕ, zero, suc, ◌+◌, Bool, true, false, ◌&&◌, Option, none, some, List, [], ◌∷◌, ◌==◌, set,
  if◌then◌else◌,
}
use pmix_tests.Base.Int.{ℤ, pos, negsuc, eqb}
use pmix_tests.Simptest.{Tracker, Globals}

-- The status of a child: WIFEXITED with WEXITSTATUS, WIFSIGNALED with WTERMSIG, or neither.
pub data WaitStatus : Type 0 where
  exited : ℕ → WaitStatus
  signaled : ℕ → WaitStatus
  other : WaitStatus

-- An answer of `waitpid`: EINTR, a child, or nothing more (0, or -1 with another error).
pub data Waited : Type 0 where
  interrupted : Waited
  child : ℤ → WaitStatus → Waited
  nothing : Waited

unfoldable pub new_code : WaitStatus → ℕ → ℕ
new_code (exited code) old = code
new_code (signaled sig) old = sig + 128
new_code other old = old

abbrev pub behind : Tracker → Option (List Tracker × ℕ) → Option (List Tracker × ℕ)
behind t none = none
behind t (some (ts, code)) = some (t ∷ ts, code)

-- The search of the table; the new table, and the exit code of the entry.
unfoldable pub mark : ℤ → WaitStatus → List Tracker → Option (List Tracker × ℕ)
mark pid status [] = none
mark pid status (t ∷ ts) =
    let code = new_code status t.exit_code in
    if eqb pid t.pid
    then some (record t { exit_code = code } ∷ ts, code)
    else behind t (mark pid status ts)

-- `--wakeup`
unfoldable pub pred : ℤ → ℤ
pred (pos zero) = negsuc 0
pred (pos (suc n)) = pos n
pred (negsuc n) = negsuc (suc n)

-- `if (0 != children[n].exit_code && 0 == exit_code) exit_code = children[n].exit_code;`
abbrev pub first_code : ℤ → ℕ → ℤ
first_code old code = if code == 0 then old else if eqb old (pos 0) then pos code else old

unfoldable pub set_pid : ℕ → ℤ → List Tracker → List Tracker
set_pid n pid [] = []
set_pid zero pid (t ∷ ts) = record t { pid = pid } ∷ ts
set_pid (suc n) pid (t ∷ ts) = t ∷ set_pid n pid ts

module _ {V : Type 0} where
  unfoldable pub account : Option (List Tracker × ℕ) → Globals V → Globals V
  account none s = s
  account (some (children, code)) s = record s {
    children = children;
    exit_code = first_code s.exit_code code;
    wakeup = pred s.wakeup;
  }

  -- The loop over the answers of `waitpid`, which ends at the first `nothing`.
  unfoldable pub wait_signal_callback : List Waited → Globals V → Globals V
  wait_signal_callback [] s = s
  wait_signal_callback (interrupted ∷ ws) s = wait_signal_callback ws s
  wait_signal_callback (nothing ∷ ws) s = s
  wait_signal_callback (child pid status ∷ ws) s =
      wait_signal_callback ws (account (mark pid status s.children) s)

  -- `children[n].pid = pid`
  unfoldable pub record_pid : ℕ → ℤ → Globals V → Globals V
  record_pid n pid s = record s { children = set_pid n pid s.children }
