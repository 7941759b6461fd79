-- ===== src/Simptest/Main.antt =====
-- `main` of simple/simptest.c: the command line, the start of the children and the verdict. The
-- answers of the PMIx library and of the system are an `Env`. The progress thread runs
-- `wait_signal_callback` while `main` goes on: `early` has its runs, with the answers of `waitpid`,
-- between the fork of a child and the write of its process id, `later` the runs behind the start.
pub mod Command
pub mod Ends
pub mod Verdict
use pmix_tests.Base.{
  ℕ, zero, suc, ◌+◌, ◌-◌, ◌%◌, ◌^◌, Bool, true, false, ◌&&◌, ◌||◌, not, Option, none, some, List,
  [], ◌∷◌, ◌++◌, ◌==◌, ltb, replicate, if◌then◌else◌,
}
use pmix_tests.Base.Int.{ℤ, pos, negsuc, eqb, is_negative}
use pmix_tests.Base.Text.{CString, codes, str_eq}
use pmix_tests.Options.Numbers.{strtol, print_int}
use pmix_tests.Simptest.{Tracker, Globals, Nspace, set_namespace}
use pmix_tests.Simptest.Reap.{Waited, wait_signal_callback, record_pid}

pub record Settings : Type 0 where
  pub nprocs : ℕ
  pub executable : Option CString
  pub client_argv : List CString
  pub istimeouttest : Bool
  pub cross_version : Bool
  pub usock : Bool
  pub verbose : Bool

abbrev pub defaults : Settings
defaults = record {
  nprocs = 1;
  executable = none;
  client_argv = [];
  istimeouttest = false;
  cross_version = false;
  usock = true;
  verbose = false;
}

-- `strstr(executable, "simptimeout")`
unfoldable pub starts_with : CString → CString → Bool
starts_with [] s = true
starts_with (p ∷ ps) [] = false
starts_with (p ∷ ps) (c ∷ cs) = (p == c) && starts_with ps cs

unfoldable pub contains : CString → CString → Bool
contains text [] = starts_with text []
contains text (c ∷ cs) = starts_with text (c ∷ cs) || contains text cs

-- The value of `strtol` in a `size_t`.
abbrev pub to_size : ℤ → ℕ
to_size (pos n) = n
to_size (negsuc n) = 2 ^ 64 - 1 - n

-- An option without an operand; `none` for -h, which ends the program with 0.
unfoldable pub flag : CString → Settings → Option Settings
flag a o =
    if str_eq a (codes "-x")
    then some (record o { cross_version = true; usock = false })
    else if str_eq a (codes "-u")
    then some (record o { usock = false })
    else if str_eq a (codes "-v")
    then some (record o { verbose = true })
    else if str_eq a (codes "-h")
    then none
    else some o

abbrev pub and_then : Option Settings → (Settings → Option Settings) → Option Settings
and_then none f = none
and_then (some o) f = f o

-- The executable, whose arguments are all that follows.
unfoldable pub set_executable : CString → List CString → Settings → Settings
set_executable name args o = record o {
  executable = some name;
  istimeouttest = contains (codes "simptimeout") name || o.istimeouttest;
  client_argv = o.client_argv ++ args;
}

-- The loop over the arguments; -n and -e want an argument behind them.
unfoldable pub parse_args : List CString → Settings → Option Settings
parse_args [] o = some o
parse_args (a ∷ []) o = flag a o
parse_args (a ∷ v ∷ rest) o =
    let behind = parse_args rest (record o { nprocs = to_size (strtol v) }) in
    let more = and_then (flag a o) (parse_args (v ∷ rest)) in
    if str_eq a (codes "-n")
    then behind
    else if str_eq a (codes "-e")
    then some (set_executable v rest o)
    else more

-- The answers for one child: PMIx_server_setup_fork, PMIx_server_register_client and fork, and the
-- runs of the signal handler before the process id is written.
pub record Child : Type 0 where
  pub setup_fork : ℤ
  pub register_client : ℤ
  pub pid : ℤ
  pub early : List (List Waited)

-- Results of the calls of `main`: `handler` and `inventory` are statuses that callbacks get.
pub record Env : Type 0 where
  pub server_init : ℤ
  pub handler : ℤ
  pub thread_start : ℤ
  pub collect_inventory : ℤ
  pub inventory : ℤ
  pub start : ℕ → Child
  pub later : List (List Waited)
  pub server_finalize : ℤ

-- How `main` ends; `waits` if children are missing when no run of the handler is left.
pub data End : Type 0 where
  returns : ℤ → End
  exits : ℤ → End
  waits : End

-- What a child is started with: its rank, what execve gets, and the value of PMIX_MCA_ptl, if it is
-- set.
pub record Started : Type 0 where
  pub rank : ℕ
  pub argv : List CString
  pub ptl : Option CString

abbrev or_simpclient : Option CString → CString
or_simpclient none = codes "./simpclient"
or_simpclient (some name) = name

-- The executable, ./simpclient if there is no -e, before the arguments behind it.
unfoldable pub argv_of : Settings → List CString
argv_of o = or_simpclient o.executable ∷ o.client_argv

unfoldable pub ptl_of : Settings → ℕ → Option CString
ptl_of o n =
    if o.cross_version
    then (if n % 2 == 0 then some (codes "tcp") else some (codes "usock"))
    else if not o.usock
    then some (codes "usock")
    else none

unfoldable pub started_of : Settings → ℕ → Started
started_of o n = record { rank = n; argv = argv_of o; ptl = ptl_of o n }

-- `pmix_argv_join` of the ranks from `n` on, `k` of them.
unfoldable pub joined_ranks : ℕ → ℕ → CString
joined_ranks n zero = []
joined_ranks n (suc zero) = print_int (pos n)
joined_ranks n (suc (suc k)) = print_int (pos n) ++ b',' ∷ joined_ranks (suc n) (suc k)

-- The namespace of all children, which `main` registers before it starts them.
unfoldable pub main_nspace : (CString → CString) → (CString → CString) → CString → Settings → Nspace
main_nspace regex ppn hostname o =
    set_namespace regex ppn hostname o.nprocs (joined_ranks 0 o.nprocs) (codes "foobar")

abbrev pub is_zero : ℤ → Bool
is_zero rc = eqb rc (pos 0)

-- The end, `none` while `main` goes on, the children started, and the globals.
pub record Outcome (V : Type 0) : Type 0 where
  pub end : Option End
  pub started : List Started
  pub globals : Globals V

abbrev is_waiting : ℤ → Bool
is_waiting (pos zero) = false
is_waiting (pos (suc n)) = true
is_waiting (negsuc n) = false

module _ {V : Type 0} where
  unfoldable pub signals : List (List Waited) → Globals V → Globals V
  signals [] s = s
  signals (ws ∷ wss) s = signals wss (wait_signal_callback ws s)

  abbrev stop : ℤ → Globals V → Outcome V
  stop rc s = record { end = some (returns rc); started = []; globals = s }

  abbrev add_started : Started → Outcome V → Outcome V
  add_started st r = record r { started = st ∷ r.started }

  -- `k` rounds of the loop that starts the children, from number `n` on.
  unfoldable pub launch : Settings → (ℕ → Child) → ℕ → ℕ → Globals V → Outcome V
  launch o start zero n s = record { end = none; started = []; globals = s }
  launch o start (suc k) n s =
      let c = start n in
      let rest = launch o start k (suc n) (record_pid n c.pid (signals c.early s)) in
      if not (is_zero c.setup_fork)
      then stop c.setup_fork s
      else if not (is_zero c.register_client)
      then stop c.register_client s
      else if is_negative c.pid
      then stop (negsuc 0) s
      else add_started (started_of o n) rest

  -- From the label `done` on.
  unfoldable pub finish : ℤ → Outcome V → Outcome V
  finish server_finalize r =
      let code = if is_zero server_finalize then r.globals.exit_code else server_finalize in
      record r { end = some (returns code); globals = record r.globals { exit_code = code } }

  -- `while (0 < wakeup)` and the end; a child that failed leads to `done` too.
  unfoldable pub wait_children : Env → Outcome V → Outcome V
  wait_children e r =
      let s = signals e.later r.globals in
      if is_waiting s.wakeup
      then record r { end = some waits; globals = s }
      else finish e.server_finalize (record r { globals = s })

  unfoldable pub after_launch : Env → Option End → Outcome V → Outcome V
  after_launch e none r = wait_children e r
  after_launch e (some end) r = r

  -- The globals once the table is allocated and `wakeup` is set. `wakeup` is an `int` of C: a number
  -- of processes is taken that one can hold, and for which there is memory.
  unfoldable pub allocated : Settings → Globals V → Globals V
  allocated o s = record s {
    istimeouttest = o.istimeouttest;
    children = replicate o.nprocs (record { exit_code = 0; pid = pos 0 });
    wakeup = pos o.nprocs;
  }

  abbrev started_none : Option End → Globals V → Outcome V
  started_none end s = record { end = end; started = []; globals = s }

  unfoldable pub run : Settings → Env → Globals V → Outcome V
  run o e s =
      let ready = allocated o s in
      let launched = launch o e.start o.nprocs 0 ready in
      if not (is_zero e.server_init)
      then started_none (some (returns e.server_init)) s
      else if not (is_zero e.handler)
      then started_none (some (exits e.handler)) s
      else if not (is_zero e.thread_start)
      then started_none (some (exits (pos 1))) s
      else if not (is_zero e.collect_inventory)
      then finish e.server_finalize (started_none none ready)
      else if not (is_zero e.inventory)
      then started_none (some (exits e.inventory)) ready
      else after_launch e launched.end launched

  -- -h ends with 0, and a cross-version test of fewer than two clients with 1.
  abbrev checked : Option Settings → Env → Globals V → Outcome V
  checked none e s = started_none (some (exits (pos 0))) s
  checked (some o) e s =
      if o.cross_version && ltb o.nprocs 2 then started_none (some (exits (pos 1))) s else run o e s

  unfoldable pub simptest_main : List CString → Env → Globals V → Outcome V
  simptest_main args e s = checked (parse_args args defaults) e s
