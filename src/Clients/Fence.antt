-- ===== src/Clients/Fence.antt =====
-- unit/test_fence.c: `add_noise` and `test_fence`. `max_nslen` is PMIX_MAX_NSLEN; a namespace fits
-- into its field. The sleep of `add_noise`, which test_fence calls first, changes nothing here.
pub mod Keys
pub mod Shared
pub mod Puts
pub mod Gets
pub mod Exchange
use pmix_tests.Base.{
  ℕ, zero, suc, ◌+◌, ◌*◌, ◌%◌, ◌^◌, Bool, true, false, ◌&&◌, ◌||◌, Option, none, some, List, [],
  ◌∷◌, ◌++◌, ◌==◌, if◌then◌else◌, Run, ok, fault, out_of_fuel, ltb, length,
}
use pmix_tests.Base.Int.{ℤ, pos}
use pmix_tests.Base.Text.{CString, codes}
use pmix_tests.Base.Status.{Status, success, error, is_success}
use pmix_tests.Published.{Proc}
use pmix_tests.Options.Numbers.{print_int, to_int, to_u32}
use pmix_tests.Options.Ranges.{
  Who, wildcard, rank, Participant, FenceDesc, parse_fence, parse_noise,
}
use pmix_tests.Options.Params.{Params}
use pmix_tests.Options.Distribution.{get_all_ranks_from_namespace}
use pmix_tests.Clients.{
  Datum, int, uint16, uint32, string, hundredths, Scope, global, Step, next, leave, crashes, Body,
  ◌>>=◌, ◌>>◌, Library, Floats, set_key, done, return_unless, check, call, put, get_or_leave, fence,
}

-- `strncmp(a, b, strlen(a)) == 0`
unfoldable pub is_prefix : CString → CString → Bool
is_prefix [] b = true
is_prefix (c ∷ cs) [] = false
is_prefix (c ∷ cs) (d ∷ ds) = (c == d) && is_prefix cs ds

abbrev pub has_rank : ℕ → Who → Bool
has_rank my_rank wildcard = true
has_rank my_rank (rank r) = my_rank == to_u32 r

-- The test of one participant, which the two loops make.
unfoldable pub names : CString → ℕ → Participant → Bool
names my_nspace my_rank p = is_prefix my_nspace p.nspace && has_rank my_rank p.who

unfoldable pub participates : CString → ℕ → List Participant → Bool
participates my_nspace my_rank [] = false
participates my_nspace my_rank (p ∷ ps) =
    names my_nspace my_rank p || participates my_nspace my_rank ps

abbrev sleeps_for : CString → ℕ → Option (List Participant) → Bool
sleeps_for my_nspace my_rank none = false
sleeps_for my_nspace my_rank (some ps) = participates my_nspace my_rank ps

-- `add_noise`: does the client sleep?
unfoldable pub add_noise : Option CString → CString → ℕ → Bool
add_noise none my_nspace my_rank = false
add_noise (some noise) my_nspace my_rank = sleeps_for my_nspace my_rank (parse_noise noise true)

-- The five data of a fence: what each client puts, and what is expected of it. The text is
-- "%d:%s:%d" of the fence, the namespace and the rank; the sum of the fence and the rank is an `int`.
unfoldable pub datum_of : ℕ → Proc → ℕ → Datum
datum_of fence_num p zero =
    string (print_int (pos fence_num) ++ b':' ∷ (p.nspace ++ b':' ∷ print_int (pos p.rank)))
datum_of fence_num p (suc zero) = int (to_int (pos ((fence_num + p.rank) % 2 ^ 32)))
datum_of fence_num p (suc (suc zero)) = hundredths (100 * fence_num + 110)
datum_of fence_num p (suc (suc (suc zero))) = uint32 (fence_num + 14)
datum_of fence_num p (suc (suc (suc (suc n)))) = uint16 (fence_num + 15)

-- Which of the five Gets are blocking.
unfoldable pub is_blocking : ℕ → Bool
is_blocking zero = true
is_blocking (suc zero) = false
is_blocking (suc (suc n)) = is_blocking n

abbrev pub add_ranks :
    (List Proc → Run (Option (List Proc)))
    → List Proc
    → Option (List Proc) × Status
    → Run (Option (List Proc))
add_ranks go found (some procs, success) = go (found ++ procs)
add_ranks go found _ = ok none

abbrev run_then : {A B : Type 0} → Run A → (A → Run B) → Run B
run_then (ok a) go = go a
run_then fault go = fault
run_then out_of_fuel go = out_of_fuel

-- A participant with a rank is kept; one for a whole namespace is replaced by the ranks of this
-- namespace, at the end of the list.
abbrev pub replace_ranks :
    ℕ
    → Params
    → CString
    → Who
    → (List Proc → List Proc → Run (Option (List Proc)))
    → List Proc
    → List Proc
    → Run (Option (List Proc))
replace_ranks max_nslen params nspace (rank r) go kept found =
    go (kept ++ record { nspace = nspace; rank = to_u32 r } ∷ []) found
replace_ranks max_nslen params nspace wildcard go kept found =
    run_then (get_all_ranks_from_namespace max_nslen params nspace) (add_ranks (go kept) found)

-- The loop that replaces the participants; `none` where a namespace has no ranks.
unfoldable pub real_ranks :
    ℕ → Params → List Participant → List Proc → List Proc → Run (Option (List Proc))
real_ranks max_nslen params [] kept found = ok (some (kept ++ found))
real_ranks max_nslen params (p ∷ ps) kept found =
    replace_ranks max_nslen params p.nspace p.who (real_ranks max_nslen params ps) kept found

-- The log line that the search for the client prints into `tmp`, which has 256 bytes.
abbrev flag_text : Bool → CString
flag_text flag = print_int (pos (if flag then 1 else 0))

abbrev who_text : Who → CString
who_text wildcard = codes "all; "
who_text (rank r) = print_int (to_int (pos (to_u32 r))) ++ b',' ∷ []

unfoldable pub ranks_text : List Participant → CString
ranks_text [] = []
ranks_text (p ∷ ps) = who_text p.who ++ ranks_text ps

unfoldable pub tmp_text : ℕ → FenceDesc → CString
tmp_text fence_num desc =
    codes "fence "
    ++ print_int (pos fence_num)
    ++ codes ": block = "
    ++ flag_text desc.blocking
    ++ codes " de = "
    ++ flag_text desc.data_exchange
    ++ b' ' ∷ ranks_text desc.participants

module _ {L : Type 0} where
  abbrev overflow : {A : Type 0} → Body L A
  overflow l = (crashes, l)

  abbrev pub from_run : {A : Type 0} → Run (Option A) → Body L A
  from_run (ok (some a)) l = (next a, l)
  from_run (ok none) l = (leave error, l)
  from_run _ l = (crashes, l)

module _ {L F : Type 0} (lib : Library L F) (fl : Floats F) (use_same_keys : Bool) where
  -- `n` of the five PUTs, from number `ind` on, of the client `self`.
  unfoldable pub put_values : ℕ → Proc → ℕ → ℕ → Body L (Unit {0})
  put_values fence_num self zero ind = done tt
  put_values fence_num self (suc n) ind = do
    put lib fl global (set_key use_same_keys fence_num ind) (datum_of fence_num self ind)
    put_values fence_num self n (suc ind)

  -- `n` of the five GETs of the data of one participant.
  unfoldable pub get_values : ℕ → Proc → ℕ → ℕ → Body L (Unit {0})
  get_values fence_num p zero ind = done tt
  get_values fence_num p (suc n) ind = do
    get_or_leave lib fl (is_blocking ind) (datum_of fence_num p ind) p
        (set_key use_same_keys fence_num ind)
    get_values fence_num p n (suc ind)

  -- The data of all participants.
  unfoldable pub get_all : ℕ → List Proc → Body L (Unit {0})
  get_all fence_num [] = done tt
  get_all fence_num (p ∷ ps) = do get_values fence_num p 5 0; get_all fence_num ps

  -- The part of a client up to the fence, which makes its data known.
  unfoldable pub put_commit : ℕ → Proc → Body L (Unit {0})
  put_commit fence_num self = do put_values fence_num self 5 0; rc ← call lib.commit; check rc

  -- One fence that the client takes part in; the status of the barrier at its end is not tested.
  unfoldable pub fence_round : ℕ → Params → Proc → ℕ → FenceDesc → Body L (Unit {0})
  fence_round max_nslen params self fence_num desc = do
    put_commit fence_num self
    rc ← fence lib desc.blocking desc.data_exchange desc.participants
    check rc
    procs ← from_run (real_ranks max_nslen params desc.participants [] [])
    get_all fence_num procs
    rc ← fence lib true false desc.participants
    done tt

  -- The loop over the fences.
  unfoldable pub run_fences : ℕ → Params → Proc → ℕ → List FenceDesc → Body L Status
  run_fences max_nslen params self fence_num [] = done success
  run_fences max_nslen params self fence_num (desc ∷ descs) =
      let rest = run_fences max_nslen params self (suc fence_num) descs in
      let taken = (do fence_round max_nslen params self fence_num desc; rest) in
      let searched =
        (if participates self.nspace self.rank desc.participants then taken else rest) in
      if ltb (length (tmp_text fence_num desc)) 256 then searched else overflow

-- `test_fence`; `max_nslen` is PMIX_MAX_NSLEN.
unfoldable pub test_fence :
    {L F : Type 0} → Library L F → Floats F → ℕ → Params → CString → Proc → Body L Status
test_fence lib fl max_nslen params fences self =
    run_fences lib fl params.use_same_keys max_nslen params self 0 (parse_fence fences true).1
