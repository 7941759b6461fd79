-- ===== src/Options/ClientArgs/Reads.antt =====
-- What `parse_cmd` of unit/test_common.c makes of the parts of an argument list.
use mathlib.Core.Bool.{or-false, or-true}
use mathlib.Core.List.{append_assoc}
use pmix_tests.Base.{
  ◌≡◌, refl, sym, ap, ◌∙◌, Bool, true, false, ◌&&◌, ◌||◌, Option, none, some, List, [], ◌∷◌, ◌++◌,
  arith, if◌then◌else◌,
}
use pmix_tests.Base.Int.{pos, negsuc, eqb}
use pmix_tests.Base.Text.{CString, codes, str_eq}
use pmix_tests.Options.Numbers.{strtol, to_int, to_u32}
use pmix_tests.Options.Params.{Params}
use pmix_tests.Options.Command.{
  Parsed, parsed, exited, crashed, and_then, branch_in, branch_of, takes_operand, apply_opt,
  parse_args,
}
use pmix_tests.Options.ClientArgs.{flag, with_operand, np_args, fence_args, job_fence_args}

and_then-parsed : (r : Parsed) → r ≡ and_then r parsed
and_then-parsed (parsed p) = refl
and_then-parsed (exited code) = refl
and_then-parsed crashed = refl

parse_args-alone :
    (a : CString) (rest : List CString) (p : Params)
    → takes_operand (branch_of a) ≡ false
    → parse_args (a ∷ rest) p ≡ and_then (apply_opt (branch_of a) none p) (parse_args rest)
unfolding parse_args
parse_args-alone a [] p h = and_then-parsed (apply_opt (branch_of a) none p)
parse_args-alone a (b ∷ rest) p h = rw h refl

parse_args-operand :
    (a b : CString) (rest : List CString) (p : Params)
    → takes_operand (branch_of a) ≡ true
    → parse_args (a ∷ b ∷ rest) p ≡ and_then (apply_opt (branch_of a) (some b) p) (parse_args rest)
unfolding parse_args
parse_args-operand a b rest p h = rw h refl

-- Before any other arguments, these change the parameters in this way.
pub record Reads (args : List CString) (update : Params → Params) : Type 0 where
  pub read :
      (rest : List CString) (p : Params) → parse_args (args ++ rest) p ≡ parse_args rest (update p)

pub Reads-append :
    {first second : List CString} {f g : Params → Params}
    → Reads first f
    → Reads second g
    → Reads (first ++ second) (λ p. g (f p))
Reads-append {first} {second} {f} {g} hf hg = record {
  read = λ rest p.
      rw (append_assoc first second rest, hf.read (second ++ rest) p) (hg.read rest (f p));
}

-- The value of a member after an option that may be there.
abbrev pub given : Option CString → Option CString → Option CString
given o none = o
given none (some s) = some s
given (some t) (some s) = some t

given-none : (o : Option CString) → given none o ≡ o
given-none none = refl
given-none (some s) = refl

given-some : (s : CString) (o : Option CString) → given (some s) o ≡ some s
given-some s none = refl
given-some s (some t) = refl

pub Reads-flag :
    (name : CString) (get : Params → Bool) (put : Bool → Params → Params)
    → takes_operand (branch_of name) ≡ false
    → ((p : Params) → apply_opt (branch_of name) none p ≡ parsed (put true p))
    → ((p : Params) → put (get p) p ≡ p)
    → (set : Bool) → Reads (flag set name) (λ p. put (get p || set) p)
unfolding flag
Reads-flag name get put h on same true = record {
  read = λ rest p.
      parse_args-alone name rest p h
      ∙ ap (λ r. and_then r (parse_args rest)) (on p)
      ∙ ap (λ b. parse_args rest (put b p)) (sym (or-true (get p)));
}
Reads-flag name get put h on same false = record {
  read = λ rest p. ap (parse_args rest) (sym (same p) ∙ ap (λ b. put b p) (sym (or-false (get p))));
}

pub Reads-with_operand :
    (name : CString) (get : Params → Option CString) (put : Option CString → Params → Params)
    → takes_operand (branch_of name) ≡ true
    → ((p : Params) → put (get p) p ≡ p)
    → (o : Option CString)
    → ((s : CString) (p : Params)
        → o ≡ some s
        → apply_opt (branch_of name) (some s) p ≡ parsed (put (some s) p))
    → Reads (with_operand o name) (λ p. put (given o (get p)) p)
unfolding with_operand
Reads-with_operand name get put h same none on = record {
  read =
      λ rest p. ap (parse_args rest) (sym (same p) ∙ ap (λ o. put o p) (sym (given-none (get p))));
}
Reads-with_operand name get put h same (some s) on = record {
  read = λ rest p.
      parse_args-operand name s rest p h
      ∙ ap (λ r. and_then r (parse_args rest)) (on s p refl)
      ∙ ap (λ o. parse_args rest (put o p)) (sym (given-some s (get p)));
}

abbrev pub is_some : Option CString → Bool
is_some none = false
is_some (some s) = true

-- The nested options, one behind the other.
pub fence_args-flat :
    (p : Params)
    → fence_args p
      ≡ with_operand p.fences (codes "--fence")
        ++ flag (is_some p.fences && p.use_same_keys) (codes "--use-same-keys")
unfolding fence_args with_operand flag
fence_args-flat p = ground arith

pub job_fence_args-flat :
    (p : Params)
    → job_fence_args p
      ≡ flag p.test_job_fence (codes "--job-fence")
        ++ (flag (p.test_job_fence && p.nonblocking) (codes "-nb")
            ++ (flag (p.test_job_fence && p.collect) (codes "-c")
                ++ flag (p.test_job_fence && p.collect_bad) (codes "--collect-corrupt")))
unfolding job_fence_args flag
job_fence_args-flat p = ground arith

abbrev pub np_or_one : Option CString → CString
np_or_one none = codes "1"
np_or_one (some s) = s

pub Reads-np :
    (o : Option CString)
    → Reads (np_args o) (λ p. record p {
      np = some (np_or_one o);
      nprocs = to_u32 (strtol (np_or_one o));
      ns_size =
          if eqb p.ns_size (negsuc 0)
          then to_int (pos (to_u32 (strtol (np_or_one o))))
          else p.ns_size;
    })
unfolding np_args branch_of branch_in str_eq takes_operand apply_opt
Reads-np none = record { read = λ rest p. parse_args-operand (codes "-n") (codes "1") rest p refl }
Reads-np (some s) = record { read = λ rest p. parse_args-operand (codes "-n") s rest p refl }

pub Reads-one :
    (name s : CString) (update : Params → Params)
    → takes_operand (branch_of name) ≡ true
    → ((p : Params) → apply_opt (branch_of name) (some s) p ≡ parsed (update p))
    → Reads (name ∷ s ∷ []) update
Reads-one name s update h on = record {
  read =
      λ rest p. parse_args-operand name s rest p h ∙ ap (λ r. and_then r (parse_args rest)) (on p);
}
