-- ===== src/Callbacks.antt =====
-- unit/server_callbacks.c: the callbacks of the server module that look after clients, `finalized`,
-- `abort_fn`, `connected`, `connect_fn`, `disconnect_fn`, `regevents_fn`, `deregevents_fn` and
-- `spawn_fn` with the release of its data. The globals that they share are a `Server`. A callback
-- pointer that is not NULL is called once with the status that `Reply` shows.
pub mod Finalized
use pmix_tests.Base.{
  ℕ, suc, ◌+◌, Bool, true, false, Option, none, some, List, [], ◌∷◌, ◌++◌, if◌then◌else◌, leb, ◌==◌,
  length, get_elem?, set, Run, ok, fault, ◌>>=◌,
}
use pmix_tests.Base.Int.{ℤ}
use pmix_tests.Base.Text.{CString, str_eq}
use pmix_tests.Base.Status.{Status, success}
use pmix_tests.Cli.{CliInfo, Stage, Ns, null, live, freed, term, state_num, same_ns, cli_finalize}
use pmix_tests.Cli.Table.{World}
use pmix_tests.Published.{TestInfo}

pub record Server (V : Type 0) : Type 0 where
  pub world : World
  pub published : Option (List (TestInfo V))
  pub finalized_count : ℕ
  pub numconnect : ℕ
  pub spawn_wait : Bool

-- The status given to `cbfunc`, if it is called, and the result.
pub record Reply : Type 0 where
  pub called : Option Status
  pub rc : Status

abbrev pub reply_success : Bool → Reply
reply_success has_cb = record { called = if has_cb then some success else none; rc = success }

-- The loop of `finalized`; the namespaces are compared only where the ranks agree.
unfoldable pub find_cli : CString → ℕ → List CliInfo → Run (Option ℕ)
find_cli nspace rank [] = ok none
find_cli nspace rank (c ∷ cs) =
    let rest = (do
      found ← find_cli nspace rank cs
      ok (elim found [ none ↦ none | some i ↦ some (suc i) ])) in
    if rank == c.rank
    then (do same ← same_ns nspace c.ns; if same then ok (some 0) else rest)
    else rest

-- A stage function called on entry `i` of the table.
unfoldable pub at_entry : ℕ → (Stage → Run Stage) → World → Run World
at_entry i f w = elim (get_elem? w.table i) [
  | none ↦ fault
  | some c ↦ do
    s ← f (record { cli = c; test_abort = w.test_abort; effects = w.effects })
    ok (record { table = set w.table i s.cli; test_abort = s.test_abort; effects = s.effects })
]

module _ {V : Type 0} where
  -- The last client to finalize releases the published data; the macro sets the pointer to NULL.
  unfoldable pub count_finalized : Server V → Server V
  count_finalized s =
      let n = s.finalized_count + 1 in
      record s {
        finalized_count = n;
        published = if n == length s.world.table then none else s.published;
      }

  finalize_entry : Bool → ℕ → CliInfo → Server V → Run (Server V × Reply)
  finalize_entry has_cb i c s =
      if leb (state_num term) (state_num c.state) then ok (s, reply_success false) else do
        w ← at_entry i cli_finalize s.world
        ok (count_finalized (record s { world = w }), reply_success has_cb)

  unfoldable pub finalized : CString → ℕ → Bool → Server V → Run (Server V × Reply)
  unfolding finalize_entry
  finalized nspace rank has_cb s = do
    found ← find_cli nspace rank s.world.table
    elim found [
      | none ↦ ok (s, reply_success false)
      | some i ↦ elim (get_elem? s.world.table i) [
        | none ↦ fault
        | some c ↦ finalize_entry has_cb i c s
      ]
    ]

  unfoldable pub connected : Bool → Server V → Server V × Reply
  connected has_cb s = (s, reply_success has_cb)

  unfoldable pub abort_fn : Bool → Server V → Server V × Reply
  abort_fn has_cb s =
      (record s { world = record s.world { test_abort = true } }, reply_success has_cb)

  unfoldable pub connect_fn : Bool → Server V → Server V × Reply
  connect_fn has_cb s = (record s { numconnect = s.numconnect + 1 }, reply_success has_cb)

  unfoldable pub disconnect_fn : Bool → Server V → Server V × Reply
  disconnect_fn has_cb s = (s, reply_success has_cb)

  unfoldable pub regevents_fn : Bool → Server V → Server V × Reply
  regevents_fn has_cb s = (s, reply_success has_cb)

  unfoldable pub deregevents_fn : Bool → Server V → Server V × Reply
  deregevents_fn has_cb s = (s, reply_success has_cb)

  -- `PMIx_server_register_nspace` is given `release_cb` and keeps the data `cb` for it.
  unfoldable pub spawn_fn : Server V → Server V × Status
  spawn_fn s = (record s { spawn_wait = true }, success)

  -- `release_cb`: where no thread can be created (`pthread_create` answers below zero) the wait
  -- ends at once, and the spawn callback is not called. Otherwise the thread runs `_release_cb`.
  unfoldable pub release_cb : Bool → Bool → Server V → Server V × Option Status
  release_cb thread_ok has_cb s =
      if thread_ok
      then (record s { spawn_wait = false }, if has_cb then some success else none)
      else (record s { spawn_wait = false }, none)
