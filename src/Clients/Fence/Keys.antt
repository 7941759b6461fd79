-- ===== src/Clients/Fence/Keys.antt =====
-- The keys of one fence of unit/test_fence.c: SET_KEY makes five different ones.
use pmix_tests.Base.{
  ℕ, ◌<◌, ◌^◌, ◌≡◌, refl, sym, ap, ◌∙◌, inl, inr, Bool, true, false, [], ◌∷◌, ◌++◌, ◌==◌, arith,
  Bool-cases,
}
use pmix_tests.Base.Int.{pos}
use pmix_tests.Base.Text.{CString, codes, str_eq, str_eq_refl, eq_of_str_eq}
use pmix_tests.Published.{Proc}
use pmix_tests.Options.Numbers.{print_int, strtol, strtol-print_int}
use pmix_tests.Clients.{set_key}
use pmix_tests.Clients.Store.{same_proc}

pub str_eq-append : (a b c : CString) → str_eq (a ++ b) (a ++ c) ≡ str_eq b c
unfolding str_eq
str_eq-append [] b c = refl
str_eq-append (x ∷ a) b c = ground (arith, str_eq-append a b c)

pub print_int-differ :
    (i j : ℕ)
    → i < 2 ^ 31
    → j < 2 ^ 31
    → (i == j) ≡ false
    → str_eq (print_int (pos i)) (print_int (pos j)) ≡ false
print_int-differ i j hi hj ne = elim (Bool-cases (str_eq (print_int (pos i)) (print_int (pos j)))) [
  | inr e ↦ e
  | inl e ↦
      let same : pos i ≡ pos j =
        sym (strtol-print_int i hi)
        ∙ ap strtol (eq_of_str_eq (print_int (pos i)) (print_int (pos j)) e)
        ∙ strtol-print_int j hj in
      absurd (ground arith)
]

-- The keys of one fence differ.
pub set_key-differ :
    (use_same_keys : Bool) (fence_num i j : ℕ)
    → i < 2 ^ 31
    → j < 2 ^ 31
    → (i == j) ≡ false
    → str_eq (set_key use_same_keys fence_num i) (set_key use_same_keys fence_num j) ≡ false
unfolding set_key
set_key-differ true f i j hi hj ne =
    str_eq-append (codes "key-") (print_int (pos i)) (print_int (pos j))
    ∙ print_int-differ i j hi hj ne
set_key-differ false f i j hi hj ne =
    str_eq-append (codes "key-f") _ _
    ∙ str_eq-append (print_int (pos f)) (b':' ∷ print_int (pos i)) (b':' ∷ print_int (pos j))
    ∙ str_eq-append (b':' ∷ []) (print_int (pos i)) (print_int (pos j))
    ∙ print_int-differ i j hi hj ne

pub same_proc_refl : (p : Proc) → same_proc p p ≡ true
same_proc_refl p = ground (arith, str_eq_refl p.nspace)
