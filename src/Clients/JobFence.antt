-- ===== src/Clients/JobFence.antt =====
-- unit/test_fence.c: `get_local_peers` and `test_job_fence`. The names of the keys and the wildcard
-- rank are constants of the PMIx headers.
pub mod Peers
use pmix_tests.Base.{
  ℕ, zero, suc, ◌+◌, ◌*◌, Bool, true, false, ◌&&◌, ◌||◌, not, Option, none, some, List, [], ◌∷◌,
  ◌++◌, ◌==◌, leb, ltb, if◌then◌else◌, take,
}
use pmix_tests.Base.Int.{ℤ, pos, negsuc}
use pmix_tests.Base.Text.{CString, codes}
use pmix_tests.Base.Status.{Status, success, error, is_success, is_missing}
use pmix_tests.Published.{Proc}
use pmix_tests.Options.Numbers.{is_digit_code, print_int, strtol, to_u32}
use pmix_tests.Options.Ranges.{tokens, skip_spaces}
use pmix_tests.Options.Params.{Params}
use pmix_tests.Clients.{
  Value, uint32, string, Datum, int, hundredths, local, remote, global, Step, next, leave, hangs,
  crashes, Body, ◌>>=◌, ◌>>◌, Library, Floats, set_key, done, return_unless, check, call, ask, put,
  get, get_or_leave, fence,
}

pub record Constants : Type 0 where
  pub rank_wildcard : ℕ
  pub local_size : CString
  pub local_peers : CString
  pub job_size : CString
  pub hostname : CString
  pub nodeid : CString

unfoldable pub all_digits : CString → Bool
all_digits [] = true
all_digits (c ∷ cs) = is_digit_code c && all_digits cs

abbrev behind_sign : CString → CString
behind_sign [] = []
behind_sign (c ∷ cs) = if (c == b'-') || (c == b'+') then cs else c ∷ cs

abbrev is_number : CString → Bool
is_number [] = false
is_number (c ∷ cs) = all_digits (c ∷ cs)

-- `*eptr == '\0'` behind `strtol(token, &eptr, 10)`.
unfoldable pub is_whole : CString → Bool
is_whole token = is_number (behind_sign (skip_spaces token))

module _ {L : Type 0} where
  -- The loop over the tokens: `peers` are those stored, in an array of `npeers` of them.
  unfoldable pub peers_loop : ℕ → List CString → List ℕ → ℕ → Body L (List ℕ)
  peers_loop npeers [] peers count l = (if count == npeers then next peers else leave error, l)
  peers_loop npeers (t ∷ ts) peers count l =
      let rest = peers_loop npeers ts (peers ++ to_u32 (strtol t) ∷ []) (suc count) l in
      if leb npeers count then (crashes, l) else if is_whole t then rest else (leave error, l)

module _ {L F : Type 0} (lib : Library L F) (k : Constants) where
  abbrev as_uint32 : Option (Value F) → Body L ℕ
  as_uint32 (some (uint32 n)) l = (next n, l)
  as_uint32 _ l = (leave error, l)

  abbrev as_string : Option (Value F) → Body L CString
  as_string (some (string s)) l = (next s, l)
  as_string _ l = (leave error, l)

  unfoldable pub get_local_peers : CString → Body L (List ℕ)
  get_local_peers my_nspace = do
    (rc, val) ← ask (lib.get (record { nspace = my_nspace; rank = k.rank_wildcard }) k.local_size)
    check rc
    npeers ← as_uint32 val
    (rc, val) ← ask (lib.get (record { nspace = my_nspace; rank = k.rank_wildcard }) k.local_peers)
    check rc
    text ← as_string val
    peers_loop npeers (tokens b',' [] text) [] 0

unfoldable pub has_peer : List ℕ → ℕ → Bool
has_peer [] r = false
has_peer (p ∷ ps) r = (p == r) || has_peer ps r

-- How often a loop with this bound runs.
abbrev pub rounds : ℤ → ℕ
rounds (pos n) = n
rounds (negsuc n) = 0

-- "%s:%d" of the namespace and a rank.
unfoldable pub name_of : Proc → CString
name_of p = p.nspace ++ b':' ∷ print_int (pos p.rank)

abbrev pub int_datum : ℕ → Datum
int_datum j = int (pos (12340 + j))

-- The name in an array of 50 bytes.
abbrev pub string_datum : Proc → Datum
string_datum p = string (take 49 (name_of p))

abbrev pub float_datum : ℕ → Datum
float_datum j = hundredths (1215 + 100 * j)

module _ {L : Type 0} where
  -- PMIX_ERROR in place of any other status that a body returns.
  abbrev as_error : {A : Type 0} → Step A × L → Step A × L
  as_error (next a, l) = (next a, l)
  as_error (leave rc, l) = (leave error, l)
  as_error (hangs, l) = (hangs, l)
  as_error (crashes, l) = (crashes, l)

module _ {L F : Type 0} (lib : Library L F) (fl : Floats F) (k : Constants) (self : Proc) where
  -- The rounds of the loop that puts the data, from number `i` on.
  unfoldable pub put_job : ℕ → ℕ → Body L (Unit {0})
  put_job zero i = done tt
  put_job (suc n) i = do
    put lib fl local (set_key false 100 i) (int_datum i)
    put lib fl remote (set_key false 101 i) (string_datum self)
    put lib fl global (set_key false 102 i) (float_datum i)
    put_job n (suc i)

  -- The data of a process on the same node: its remote data must not be found, unless it is the
  -- client itself.
  unfoldable pub check_local : Proc → ℕ → Body L (Unit {0})
  check_local p j = do
    get_or_leave lib fl false (int_datum j) p (set_key false 100 j)
    found ← get lib fl true (string_datum p) p (set_key false 101 j)
    return_unless (not (found && not (p.rank == self.rank))) error

  unfoldable pub check_remote : Proc → ℕ → Body L (Unit {0})
  check_remote p j = do
    found ← get lib fl false (int_datum j) p (set_key false 100 j)
    return_unless (not (found && not (p.rank == self.rank))) error
    get_or_leave lib fl true (string_datum p) p (set_key false 101 j)

  unfoldable pub check_job : List ℕ → Proc → ℕ → ℕ → Body L (Unit {0})
  check_job peers p zero j = done tt
  check_job peers p (suc n) j = do
    if has_peer peers p.rank then check_local p j else check_remote p j
    get_or_leave lib fl false (float_datum j) p (set_key false 102 j)
    check_job peers p n (suc j)

  abbrev is_null : Option (Value F) → Bool
  is_null none = true
  is_null (some v) = false

  -- A key that nobody puts.
  unfoldable pub check_missing : Proc → Body L (Unit {0})
  check_missing p = do
    (rc, val) ← ask (lib.get p (codes "foobar"))
    return_unless (is_missing rc && is_null val) error

  -- The loop over the ranks from `r` on.
  unfoldable pub check_ranks : List ℕ → ℕ → ℕ → Body L (Unit {0})
  check_ranks peers zero r = done tt
  check_ranks peers (suc n) r = do
    check_job peers (record { nspace = self.nspace; rank = r }) 3 0
    check_missing (record { nspace = self.nspace; rank = r })
    check_ranks peers n (suc r)

  unfoldable pub test_job_fence : Params → Body L Status
  test_job_fence params = do
    put_job 3 0
    rc ← call lib.commit
    return_unless (is_success rc) error
    rc ← fence lib (not params.nonblocking) params.collect []
    check rc
    peers ← λ l. as_error (get_local_peers lib k self.nspace l)
    check_ranks peers (rounds params.ns_size) params.base_rank
    done success
