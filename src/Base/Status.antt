-- ===== src/Base/Status.antt =====
-- The status codes of PMIx that the harness and its clients return or test, and any other one.
use Prim.Native.Nat.{ℕ}
use mathlib.Core.Bool.{Bool, true, false}

pub data Status : Type 0 where
  success : Status
  error : Status
  err_not_found : Status
  err_bad_param : Status
  err_out_of_resource : Status
  err_proc_entry_not_found : Status
  other : ℕ → Status

abbrev pub is_success : Status → Bool
is_success success = true
is_success _ = false

-- The two codes that a Get may end with where the data are not there.
abbrev pub is_missing : Status → Bool
is_missing err_not_found = true
is_missing err_proc_entry_not_found = true
is_missing _ = false

abbrev pub is_not_found : Status → Bool
is_not_found err_not_found = true
is_not_found _ = false
