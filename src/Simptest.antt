-- ===== src/Simptest.antt =====
-- simple/simptest.c: the globals of the test server and the functions of its server module
-- `mymodule`. A callback pointer that is not NULL (`has_cb`) is called once, with what the result
-- shows, or `none` where the code makes no call. `max_nslen` and `max_keylen` are PMIX_MAX_NSLEN and
-- PMIX_MAX_KEYLEN, and values are of an abstract type, since the code only copies them.
pub mod Lookup
pub mod Reap
pub mod Main
use pmix_tests.Base.{
  ℕ, zero, suc, ◌+◌, ◌≡◌, Bool, true, false, not, Option, none, some, List, [], ◌∷◌, ◌++◌, ◌==◌,
  ltb, length, take, if◌then◌else◌,
}
use pmix_tests.Base.Int.{ℤ, pos, negsuc, eqb}
use pmix_tests.Base.Text.{CString, codes, str_eq}
use pmix_tests.Base.Status.{Status, success, error, err_not_found}
use pmix_tests.Options.Numbers.{print_int}
use pmix_tests.Published.{Info, Proc, Pdata}

-- `wait_tracker_t`
pub record Tracker : Type 0 where
  pub exit_code : ℕ
  pub pid : ℤ

-- The array `pubdata` has `npub` elements, none while it is NULL.
pub record Globals (V : Type 0) : Type 0 where
  pub wakeup : ℤ
  pub exit_code : ℤ
  pub children : List Tracker
  pub istimeouttest : Bool
  pub pubdata : List (Pdata V)
  pub numconnects : ℕ

abbrev pub called : {A : Type 0} → Bool → A → Option A
called has_cb a = if has_cb then some a else none

-- `mylock_t`
pub record Lock : Type 0 where
  pub active : Bool
  pub status : Status

-- `lock->status = status` and DEBUG_WAKEUP_THREAD.
abbrev wake : Status → Lock → Lock
wake status lock = record { active = false; status = status }

unfoldable pub errhandler_reg_callbk : Status → Lock → Lock
errhandler_reg_callbk status lock = wake status lock

unfoldable pub model_registration_callback : Status → Lock → Lock
model_registration_callback status lock = wake status lock

unfoldable pub errhandler : Bool → Option Status
errhandler has_cb = called has_cb success

unfoldable pub model_callback : Bool → Lock → Lock × Option Status
model_callback has_cb globallock = (record globallock { active = false }, called has_cb success)

-- `myxfer_t`, as far as the callbacks use it; `has_cb` and `has_spcb` say whether `cbfunc` and
-- `spcbfunc` are not NULL.
pub record Xfer (V : Type 0) : Type 0 where
  pub lock : Lock
  pub caller : Proc
  pub info : List (Info V)
  pub has_cb : Bool
  pub has_spcb : Bool

-- `xfcon`; the caller is not set by it.
unfoldable pub xfcon : {V : Type 0} → Proc → Xfer V
xfcon caller = record {
  lock = record { active = true; status = success };
  caller = caller;
  info = [];
  has_cb = false;
  has_spcb = false;
}

unfoldable pub opcbfunc : {V : Type 0} → Status → Xfer V → Xfer V × Option Status
opcbfunc status x = (record x { lock = record x.lock { active = false } }, called x.has_cb success)

-- The caller gets the status of the notification; `x` is freed.
unfoldable pub abcbfunc : {V : Type 0} → Status → Xfer V → Option Status
abcbfunc status x = called x.has_cb status

unfoldable pub spcbfunc : {V : Type 0} → Status → Xfer V → Option (Status × CString)
spcbfunc status x = called x.has_spcb (success, codes "DYNSPACE")

-- `infocbfunc`: the copy that `dlcbfunc` delivers, and the lock of the caller.
unfoldable pub infocbfunc : {V : Type 0} → Proc → Status → List (Info V) → Lock → Xfer V × Lock
infocbfunc caller status info lock = (record (xfcon caller) { info = info }, wake status lock)

-- What `dlcbfunc` hands to PMIx_server_deliver_inventory.
unfoldable pub dlcbfunc : {V : Type 0} → Xfer V → List (Info V)
dlcbfunc x = x.info

-- The data that `set_namespace` registers.
pub data Attribute : Type 0 where
  univ_size : ℕ → Attribute
  is_spawned : ℕ → Attribute
  local_size : ℕ → Attribute
  local_peers : CString → Attribute
  node_map : CString → Attribute
  proc_map : CString → Attribute
  job_size : ℕ → Attribute

pub record Nspace : Type 0 where
  pub nspace : CString
  pub nprocs : ℕ
  pub info : List Attribute

-- `regex` and `ppn` are what PMIx_generate_regex and PMIx_generate_ppn make.
unfoldable pub set_namespace :
    (CString → CString) → (CString → CString) → CString → ℕ → CString → CString → Nspace
set_namespace regex ppn hostname nprocs ranks nspace = record {
  nspace = nspace;
  nprocs = nprocs;
  info =
      univ_size nprocs
      ∷ is_spawned 0
      ∷ local_size nprocs
      ∷ local_peers ranks
      ∷ node_map (regex hostname)
      ∷ proc_map (ppn ranks)
      ∷ job_size nprocs
      ∷ [];
}

-- What `abort_fn` hands to PMIx_Notify_event, with the two values that it makes up.
pub record Notice (V : Type 0) : Type 0 where
  pub status : ℤ
  pub xfer : Xfer V

unfoldable pub fencenb_fn : List ℕ → Bool → Option (Status × List ℕ) × Status
fencenb_fn bytes has_cb = (called has_cb (success, bytes), success)

module _ {V : Type 0} where
  unfoldable pub connected : Bool → Globals V → Globals V × Option Status × Status
  connected has_cb s = (s, called has_cb success, success)

  unfoldable pub finalized : Bool → Globals V → Globals V × Option Status × Status
  finalized has_cb s = (s, called has_cb success, success)

  unfoldable pub abort_fn : ℕ → V → V → Proc → ℤ → Bool → Notice V × Status
  abort_fn max_nslen twelve real proc status has_cb = (
    record {
      status = status;
      xfer = record (xfcon (record { nspace = take max_nslen proc.nspace; rank = proc.rank })) {
        info =
            record { key = codes "DARTH"; value = twelve }
            ∷ record { key = codes "VADER"; value = real }
            ∷ [];
        has_cb = has_cb;
      };
    },
    success,
  )

  -- Nothing is answered in the timeout test.
  unfoldable pub dmodex_fn : Bool → Globals V → Option (Status × List ℕ) × Status
  dmodex_fn has_cb s =
      (if s.istimeouttest then none else called has_cb (err_not_found, []), success)

  unfoldable pub unpublish_fn : List CString → Bool → Globals V → Globals V × Option Status × Status
  unpublish_fn keys has_cb s = (s, called has_cb success, success)

  -- The new namespace, the data kept for `spcbfunc`, and the result.
  unfoldable pub spawn_fn :
      (CString → CString) → (CString → CString) → CString → Proc → Bool → Nspace × Xfer V × Status
  spawn_fn regex ppn hostname proc has_cb = (
    set_namespace regex ppn hostname 2 (codes "0,1") (codes "DYNSPACE"),
    record (xfcon proc) { has_spcb = has_cb },
    success,
  )

  unfoldable pub connect_fn : Bool → Globals V → Globals V × Option Status × Status
  connect_fn has_cb s =
      (record s { numconnects = s.numconnects + 1 }, called has_cb success, success)

  unfoldable pub disconnect_fn : Bool → Globals V → Globals V × Option Status × Status
  disconnect_fn has_cb s = (s, called has_cb success, success)

  unfoldable pub register_event_fn : Bool → Globals V → Globals V × Option Status × Status
  register_event_fn has_cb s = (s, called has_cb success, success)

  -- These two do not call the callback.
  unfoldable pub deregister_events : Bool → Globals V → Globals V × Option Status × Status
  deregister_events has_cb s = (s, none, success)

  unfoldable pub notify_event : Bool → Globals V → Globals V × Option Status × Status
  notify_event has_cb s = (s, none, success)

  unfoldable pub log_fn : Bool → Globals V → Globals V × Option Status
  log_fn has_cb s = (s, called has_cb success)

unfoldable pub answers : ℕ → ℕ → List CString → List (Info CString)
answers max_keylen n [] = []
answers max_keylen n (key ∷ keys) =
    record { key = take max_keylen key; value = print_int (pos n) }
    ∷ answers max_keylen (suc n) keys

-- `keys` has the first key of each query.
unfoldable pub query_fn : ℕ → List CString → Bool → Option (Status × List (Info CString)) × Status
query_fn max_keylen keys false = (none, error)
query_fn max_keylen keys true = (some (success, answers max_keylen 0 keys), success)

unfoldable pub tool_connect_fn : Bool → Option (Status × Proc)
tool_connect_fn has_cb = called has_cb (success, record { nspace = codes "TOOL"; rank = 0 })
