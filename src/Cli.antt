-- ===== src/Cli.antt =====
-- unit/cli_stages.c and unit/cli_stages.h: the table of client processes that the test server
-- launches, and the stages that each client passes. A `cli_info_t *` is an index into the table.
-- `Stage` is what one call on one client sees: the client, the flag `test_abort`, and the system
-- calls made, in order. A read past `next_state`, a second `free` of `ns` and a failed assertion of
-- the destructor of `modex` are `fault`.
pub mod Cleanup
pub mod Phases
pub mod Lifecycle
pub mod Table
use pmix_tests.Base.{
  ℕ, zero, suc, ◌-◌, ◌^◌, Bool, true, false, Option, none, some, List, [], ◌∷◌, ◌++◌, ltb, ◌==◌,
  if◌then◌else◌, get_elem?, replicate, Run, ok, fault, out_of_fuel, ◌>>=◌,
}
use pmix_tests.Base.Int.{ℤ, pos, negsuc, is_negative}
use pmix_tests.Base.Text.{CString, str_eq}

pub data CliState : Type 0 where
  uninit forked connected fin disconn term undef : CliState

-- The numbers that C gives to the enumerators.
unfoldable pub state_num : CliState → ℕ
state_num uninit = 0
state_num forked = 1
state_num connected = 2
state_num fin = 3
state_num disconn = 4
state_num term = 5
state_num undef = 6

-- The field `ns`: NULL, a string that the table owns, or a string that was freed.
pub data Ns : Type 0 where
  null : Ns
  live : CString → Ns
  freed : CString → Ns

-- In `finalized` of unit/server_callbacks.c: `0 == strcmp(nspace, cli_info[i].ns)`: NULL and a freed string must not be read.
unfoldable pub same_ns : CString → Ns → Run Bool
same_ns nspace null = fault
same_ns nspace (live name) = ok (str_eq nspace name)
same_ns nspace (freed name) = fault

-- `modex` is true while the list object is constructed; nothing ever puts an item on it.
pub record CliInfo : Type 0 where
  pub modex : Bool
  pub pid : ℤ
  pub sd : ℤ
  pub ev : Option ℕ
  pub state : CliState
  pub next_state : List CliState
  pub rank : ℕ
  pub ns : Ns

pub data Effect : Type 0 where
  event_add : Option ℕ → Effect
  event_del : ℕ → Effect
  fcntl_setfl : ℤ → ℕ → Effect
  close : ℤ → Effect
  kill : ℤ → Effect

pub record Stage : Type 0 where
  pub cli : CliInfo
  pub test_abort : Bool
  pub effects : List Effect

-- `PMIX_RANK_UNDEF`, which is what the assignment of -1 to a `pmix_rank_t` stores.
abbrev pub rank_undef : ℕ
rank_undef = 4294967295

-- The table `order` of `cli_init`.
abbrev pub order : List CliState
order = forked ∷ fin ∷ undef ∷ term ∷ undef ∷ undef ∷ []

abbrev pub fresh_cli : CliInfo
fresh_cli = record {
  modex = true;
  pid = negsuc 0;
  sd = negsuc 0;
  ev = none;
  state = uninit;
  next_state = order;
  rank = rank_undef;
  ns = null;
}

unfoldable pub cli_init : ℕ → List CliInfo
cli_init nprocs = replicate nprocs fresh_cli

-- The conversion of a 32-bit `pmix_rank_t` to `int`.
abbrev pub int_of_rank : ℕ → ℤ
int_of_rank r = if ltb r (2 ^ 31) then pos r else negsuc (2 ^ 32 - r - 1)

-- `cli_rank`, for a pointer to entry `i`: entry 0 is the first of the table.
unfoldable pub cli_rank : List CliInfo → ℕ → ℤ
cli_rank table i = elim (get_elem? table i) [ none ↦ negsuc 0 | some cli ↦ int_of_rank cli.rank ]

-- `cli->next_state[cli->state]`
unfoldable pub next_of : CliInfo → Option CliState
next_of cli = get_elem? cli.next_state (state_num cli.state)

unfoldable pub same_state : CliState → CliState → Bool
same_state a b = state_num a == state_num b

abbrev pub abort : Stage → Stage
abort s = record s { test_abort = true }

abbrev pub set_state : CliState → Stage → Stage
set_state st s = record s { cli = record s.cli { state = st } }

abbrev pub emit : Effect → Stage → Stage
emit e s = record s { effects = s.effects ++ e ∷ [] }

-- The test that opens each stage function: a wrong next state sets `test_abort`.
unfoldable pub check_next : CliState → Stage → Run Stage
check_next want s = elim (next_of s.cli) [
  | none ↦ fault
  | some n ↦ ok (if same_state want n then s else abort s)
]

-- `new_event` is what libevent returns, `getfl_ok` whether `fcntl(sd, F_GETFL, 0)` succeeds, and
-- `flags` the value of the uninitialised variable with `O_NONBLOCK` set in it.
unfoldable pub cli_connect : ℤ → Option ℕ → Bool → ℕ → Stage → Run Stage
cli_connect sd new_event getfl_ok flags s = elim (next_of s.cli) [
  | none ↦ fault
  | some n ↦
      if same_state connected n
      then (let s1 =
            emit (event_add new_event)
              (record s { cli = record s.cli { sd = sd; ev = new_event } }) in
          ok (set_state connected (if getfl_ok then emit (fcntl_setfl sd flags) s1 else s1)))
      else ok (abort s)
]

unfoldable pub cli_finalize : Stage → Run Stage
cli_finalize s = do s1 ← check_next fin s; ok (set_state fin s1)

close_sd : Stage → Stage
close_sd s =
    if is_negative s.cli.sd
    then abort s
    else emit (close s.cli.sd) (record s { cli = record s.cli { sd = negsuc 0 } })

remove_event : Stage → Stage
remove_event s = elim s.cli.ev [
  | none ↦ abort s
  | some e ↦ emit (event_del e) (record s { cli = record s.cli { ev = none } })
]

-- `UNIT_LIST_DESTRUCT(&(cli->modex))` asserts the magic number, and clears it.
destruct_modex : Stage → Run Stage
destruct_modex s =
    if s.cli.modex then ok (record s { cli = record s.cli { modex = false } }) else fault

unfoldable pub cli_disconnect : Stage → Run Stage
unfolding close_sd remove_event destruct_modex
cli_disconnect s = do
  s1 ← check_next disconn s
  s2 ← destruct_modex (remove_event (close_sd s1))
  ok (set_state disconn s2)

-- `if (NULL != cli->ns) free(cli->ns);` leaves the pointer as it is.
unfoldable pub free_ns : Ns → Run Ns
free_ns null = ok null
free_ns (live name) = ok (freed name)
free_ns (freed name) = fault

unfoldable pub cli_terminate : Stage → Run Stage
cli_terminate s = do
  s1 ← check_next term s
  ns' ← free_ns s1.cli.ns
  ok (record s1 { cli = record s1.cli { pid = negsuc 0; state = term; ns = ns' } })

-- The `switch` of `cli_cleanup`; `again` is its call of itself.
cleanup_switch : (Stage → Run Stage) → Option CliState → Stage → Run Stage
cleanup_switch again none s = fault
cleanup_switch again (some forked) s = ok s
cleanup_switch again (some connected) s = ok (abort (set_state term s))
cleanup_switch again (some fin) s = do s1 ← cli_finalize s; s2 ← again s1; ok (abort s2)
cleanup_switch again (some disconn) s = do s1 ← cli_disconnect s; again s1
cleanup_switch again (some term) s = cli_terminate s
cleanup_switch again (some _) s = ok (abort s)

-- `cli_cleanup` calls itself: on fuel.
unfoldable pub cli_cleanup : ℕ → Stage → Run Stage
unfolding cleanup_switch
cli_cleanup zero s = out_of_fuel
cli_cleanup (suc fuel) s =
    if ltb (state_num term) (state_num s.cli.state)
    then ok (abort s)
    else cleanup_switch (cli_cleanup fuel) (next_of s.cli) s
