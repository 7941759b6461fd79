-- ===== src/Clients.antt =====
-- What the client tests of unit/ have in common: the macros SET_KEY, PUT, GET and FENCE of
-- unit/test_common.h and the callback functions that they wait for. The PMIx client library is not
-- part of the repository: it is a `Library` over a state of its own. A `float` is of the type `F`;
-- the numbers that the tests store in one are given in hundredths.
pub mod Outcomes
pub mod Store
pub mod Fence
pub mod JobFence
pub mod Publish
pub mod Texts
pub mod Replace
pub mod Internal
pub mod Spawn
pub mod Connect
pub mod Resolve
pub mod Events
pub mod Main
use pmix_tests.Base.{
  ℕ, ◌+◌, ◌%◌, ◌^◌, Bool, true, false, ◌&&◌, not, Option, none, some, List, [], ◌∷◌, ◌++◌, ◌==◌,
  if◌then◌else◌,
}
use pmix_tests.Base.Int.{ℤ, pos, eqb}
use pmix_tests.Base.Text.{CString, codes, str_eq}
use pmix_tests.Base.Status.{Status, success, error, is_success}
use pmix_tests.Options.Numbers.{print_int}
use pmix_tests.Options.Ranges.{Participant}
use pmix_tests.Published.{Proc}

-- `pmix_value_t` of the types that the tests use, or of another one.
pub data Value (F : Type 0) : Type 0 where
  int : ℤ → Value F
  uint16 : ℕ → Value F
  uint32 : ℕ → Value F
  string : CString → Value F
  float : F → Value F
  untested : Value F

-- What a PUT stores, or a GET expects: its `dtype` and `data`.
pub data Datum : Type 0 where
  int : ℤ → Datum
  uint16 : ℕ → Datum
  uint32 : ℕ → Datum
  string : CString → Datum
  hundredths : ℕ → Datum

pub data Scope : Type 0 where
  local remote global : Scope

-- How a body of code goes on: with a value, by a `return`, by waiting without end for a callback
-- that is not called, or by undefined behaviour.
pub data Step {ℓ} (A : Type ℓ) : Type ℓ where
  next : A → Step A
  leave : Status → Step A
  hangs : Step A
  crashes : Step A

abbrev pub Body : Type 0 → Type 0 → Type 0
Body L A = L → Step A × L

abbrev pub resume : {L A B : Type 0} → (A → Body L B) → Step A × L → Step B × L
resume f (next a, l) = f a l
resume f (leave rc, l) = (leave rc, l)
resume f (hangs, l) = (hangs, l)
resume f (crashes, l) = (crashes, l)

infixl 5 ◌>>=◌ ◌>>◌
abbrev pub ◌>>=◌ : {L A B : Type 0} → Body L A → (A → Body L B) → Body L B
◌>>=◌ m f l = resume f (m l)

abbrev pub ◌>>◌ : {L B : Type 0} → Body L (Unit {0}) → Body L B → Body L B
m >> k = m >>= λ _. k

-- The calls of the PMIx library. A call with a callback also answers what the callback is given,
-- `none` or false if it is never called.
pub record Library (L F : Type 0) : Type 0 where
  pub put : Scope → CString → Value F → L → Status × L
  pub store_internal : Proc → CString → Value F → L → Status × L
  pub commit : L → Status × L
  pub fence : Bool → List Participant → L → Status × L
  pub fence_nb : List Participant → L → Status × Bool × L
  pub get : Proc → CString → L → Status × Option (Value F) × L
  pub get_nb : Proc → CString → L → Status × Option (Status × Value F) × L

-- The types and the comparison of `float`: the value that stands for a number of hundredths, and
-- whether PMIX_VAL_CMP_float tells a value and such a number apart.
pub record Floats (F : Type 0) : Type 0 where
  pub of_hundredths : ℕ → F
  pub differs : F → ℕ → Bool

abbrev pub to_value : {F : Type 0} → Floats F → Datum → Value F
to_value fl (int i) = int i
to_value fl (uint16 n) = uint16 (n % 2 ^ 16)
to_value fl (uint32 n) = uint32 (n % 2 ^ 32)
to_value fl (string s) = string s
to_value fl (hundredths t) = float (fl.of_hundredths t)

-- Neither the type nor PMIX_VAL_CMP tells a value from the expected one. An `uint16_t` is compared
-- as an `int`.
abbrev pub accepts : {F : Type 0} → Floats F → Datum → Value F → Bool
accepts fl (int i) (int j) = eqb i j
accepts fl (uint16 n) (uint16 m) = n == m
accepts fl (uint32 n) (uint32 m) = n % 2 ^ 32 == m
accepts fl (string s) (string t) = str_eq s t
accepts fl (hundredths t) (float f) = not (fl.differs f t)
accepts fl _ _ = false

-- The key that does not depend on the fence.
abbrev pub same_key : ℤ → CString
same_key ind = codes "key-" ++ print_int ind

-- `SET_KEY`
unfoldable pub set_key : Bool → ℕ → ℕ → CString
set_key use_same_keys fence_num ind =
    if use_same_keys
    then same_key (pos ind)
    else codes "key-f" ++ (print_int (pos fence_num) ++ b':' ∷ print_int (pos ind))

module _ {L : Type 0} where
  abbrev pub done : {A : Type 0} → A → Body L A
  done a l = (next a, l)

  -- A return with a status that is not PMIX_SUCCESS, if it is one.
  abbrev pub return_unless : Bool → Status → Body L (Unit {0})
  return_unless true rc l = (next tt, l)
  return_unless false rc l = (leave rc, l)

  -- What a function returns, as a value for its caller.
  abbrev pub catch : Step Status × L → Step Status × L
  catch (leave rc, l) = (next rc, l)
  catch run = run

  abbrev pub returned : Body L Status → Body L Status
  returned m l = catch (m l)

  abbrev pub check : Status → Body L (Unit {0})
  check rc = return_unless (is_success rc) rc

  abbrev pub call : (L → Status × L) → Body L Status
  call f l = let (rc, l') = f l in (next rc, l')

  abbrev pub ask : {A : Type 0} → (L → Status × A × L) → Body L (Status × A)
  ask f l = let (rc, a, l') = f l in (next (rc, a), l')

  -- PMIX_WAIT_FOR_COMPLETION, or a loop that waits for `in_progress`.
  abbrev pub wait_for : {A : Type 0} → Option A → Body L A
  wait_for none l = (hangs, l)
  wait_for (some a) l = (next a, l)

  abbrev pub wait_flag : Bool → Body L (Unit {0})
  wait_flag true l = (next tt, l)
  wait_flag false l = (hangs, l)

module _ {L F : Type 0} (lib : Library L F) (fl : Floats F) where
  -- `PUT`, and the return of every caller where it fails: PUT makes PMIX_ERROR of any failure.
  unfoldable pub put : Scope → CString → Datum → Body L (Unit {0})
  put scope key datum = do
    rc ← call (lib.put scope key (to_value fl datum))
    return_unless (is_success rc) error

  -- `PMIX_SUCCESS == rc` behind GET, once the library has answered with a value.
  abbrev pub got : Datum → Status → Option (Value F) → Bool
  got datum rc none = false
  got datum rc (some v) = is_success rc && accepts fl datum v

  unfoldable pub get_blocking : Datum → Proc → CString → Body L Bool
  get_blocking datum proc key = do (rc, v) ← ask (lib.get proc key); done (got datum rc v)

  -- `get_cb` transfers the value if its status is PMIX_SUCCESS; the value is never NULL.
  abbrev got_nb : Datum → Status × Value F → Bool
  got_nb datum (status, v) = got datum status (some v)

  abbrev wait_get : Datum → Status → Option (Status × Value F) → Body L Bool
  wait_get datum success answer = do a ← wait_for answer; done (got_nb datum a)
  wait_get datum _ answer = done false

  unfoldable pub get_nonblocking : Datum → Proc → CString → Body L Bool
  get_nonblocking datum proc key = do
    (rc, answer) ← ask (lib.get_nb proc key)
    wait_get datum rc answer

  -- `GET`: true if `rc` is PMIX_SUCCESS in the end, false if it is PMIX_ERROR.
  abbrev pub get : Bool → Datum → Proc → CString → Body L Bool
  get true datum proc key = get_blocking datum proc key
  get false datum proc key = get_nonblocking datum proc key

  -- GET, and the return of PMIX_ERROR where it fails.
  abbrev pub get_or_leave : Bool → Datum → Proc → CString → Body L (Unit {0})
  get_or_leave blocking datum proc key = do
    found ← get blocking datum proc key
    return_unless found error

module _ {L F : Type 0} (lib : Library L F) where
  abbrev wait_fence : Status → Bool → Body L Status
  wait_fence success called = do wait_flag called; done success
  wait_fence rc called = done rc

  unfoldable pub fence_nonblocking : List Participant → Body L Status
  fence_nonblocking procs = do (rc, called) ← ask (lib.fence_nb procs); wait_fence rc called

  -- `FENCE`: the result of the call. A nonblocking fence does not ask for the data.
  abbrev pub fence : Bool → Bool → List Participant → Body L Status
  fence true data_ex procs = call (lib.fence data_ex procs)
  fence false data_ex procs = fence_nonblocking procs
