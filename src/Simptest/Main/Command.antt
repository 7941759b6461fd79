-- ===== src/Simptest/Main/Command.antt =====
-- The command line of simple/simptest.c.
use pmix_tests.Base.{ℕ, ◌^◌, ◌<◌, ◌≡◌, some, List, ◌∷◌, arith}
use pmix_tests.Base.Int.{pos}
use pmix_tests.Base.Text.{CString, codes, str_eq}
use pmix_tests.Options.Numbers.{print_int, strtol-print_int}
use pmix_tests.Simptest.Main.{defaults, parse_args, set_executable, contains}

-- The number of processes behind -n and the executable with its arguments behind -e are read as they
-- are given, whatever the arguments are.
pub parse_args-command :
    (n : ℕ) (name : CString) (args : List CString)
    → n < 2 ^ 31
    → parse_args (codes "-n" ∷ print_int (pos n) ∷ codes "-e" ∷ name ∷ args) defaults
      ≡ some (record defaults {
        nprocs = n;
        executable = some name;
        client_argv = args;
        istimeouttest = contains (codes "simptimeout") name;
      })
unfolding parse_args set_executable str_eq
parse_args-command n name args h = rw (strtol-print_int n h) (ground arith)
