-- ===== src/Options/Command/Dropped.antt =====
-- What `parse_cmd` of unit/test_common.c makes of an option behind `--test-replace`, whose operand
-- may be left out.
use pmix_tests.Base.{◌≡◌, refl, true, some, List, ◌∷◌}
use pmix_tests.Base.Int.{pos}
use pmix_tests.Base.Text.{CString, codes, str_eq}
use pmix_tests.Options.Params.{Params}
use pmix_tests.Options.Command.{
  branch_in, branch_of, takes_operand, is_dashed, default_replace, apply_opt, parse_args,
}

-- Behind `--test-replace` or `--test-internal` an argument that starts with a dash is passed over,
-- whatever option it names: the rest is read as if it were not there, with the default of the first
-- option.
pub parse_args_drops :
    (arg : CString) (rest : List CString) (p : Params)
    → is_dashed arg ≡ true
    → (parse_args (codes "--test-replace" ∷ arg ∷ rest) p
        ≡ parse_args rest (record p { key_replace = some default_replace }))
      × (parse_args (codes "--test-internal" ∷ arg ∷ rest) p
          ≡ parse_args rest (record p { test_internal = pos 1 }))
unfolding parse_args branch_of branch_in str_eq takes_operand apply_opt
parse_args_drops arg rest p h = (rw h refl, rw h refl)
