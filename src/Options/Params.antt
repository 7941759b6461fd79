-- ===== src/Options/Params.antt =====
-- `test_params` and the macro INIT_TEST_PARAMS of unit/test_common.h. A member that is only ever 0
-- or 1 is a Bool, and a `char *` is an Option.
use pmix_tests.Base.{ℕ, Bool, false, Option, none}
use pmix_tests.Base.Int.{ℤ, pos, negsuc}
use pmix_tests.Base.Text.{CString}

pub record Params : Type 0 where
  pub binary : Option CString
  pub np : Option CString
  pub prefix : Option CString
  pub nspace : Option CString
  pub nprocs : ℕ
  pub timeout : ℤ
  pub verbose : Bool
  pub rank : ℕ
  pub early_fail : Bool
  pub test_job_fence : Bool
  pub collect_bad : Bool
  pub use_same_keys : Bool
  pub collect : Bool
  pub nonblocking : Bool
  pub fences : Option CString
  pub noise : Option CString
  pub ns_dist : Option CString
  pub ns_size : ℤ
  pub ns_id : ℤ
  pub base_rank : ℕ
  pub test_publish : Bool
  pub test_spawn : Bool
  pub test_connect : Bool
  pub test_resolve_peers : Bool
  pub test_error : Bool
  pub key_replace : Option CString
  pub test_internal : ℤ
  pub gds_mode : Option CString
  pub nservers : ℤ
  pub lsize : ℕ

abbrev pub rank_undef : ℕ
rank_undef = 4294967295

-- INIT_TEST_PARAMS
abbrev pub init_params : Params
init_params = record {
  binary = none;
  np = none;
  prefix = none;
  nspace = none;
  nprocs = 1;
  timeout = pos 10;
  verbose = false;
  rank = rank_undef;
  early_fail = false;
  test_job_fence = false;
  collect_bad = false;
  use_same_keys = false;
  collect = false;
  nonblocking = false;
  fences = none;
  noise = none;
  ns_dist = none;
  ns_size = negsuc 0;
  ns_id = negsuc 0;
  base_rank = 0;
  test_publish = false;
  test_spawn = false;
  test_connect = false;
  test_resolve_peers = false;
  test_error = false;
  key_replace = none;
  test_internal = pos 0;
  gds_mode = none;
  nservers = pos 1;
  lsize = 0;
}
