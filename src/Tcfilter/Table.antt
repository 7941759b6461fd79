-- ===== src/Tcfilter/Table.antt =====
-- The table of names of prrte/debug/tcfilter.c and the numbers that it gives them.
use mathlib.Core.List.{append_assoc, append-nil}
use pmix_tests.Base.{
  ℕ, zero, suc, ◌≤◌, ◌<◌, ◌≡◌, ◌⊎◌, refl, sym, ap, ◌∙◌, false, some, List, [], ◌∷◌, ◌++◌, arith,
  leb, length, get_elem?, length-append, Bool-cases, inl, inr,
}
use pmix_tests.Base.Text.{CString, str_eq, str_eq_refl, eq_of_str_eq}
use pmix_tests.Tcfilter.{ok, index_of, enter}

index_of-le : (t : CString) (names : List CString) → index_of t names ≤ length names
unfolding index_of
index_of-le t [] = omega arith
index_of-le t (s ∷ ss) = ground (arith, index_of-le t ss)

pub index_of-found :
    (t : CString) (names : List CString)
    → index_of t names < length names
    → get_elem? names (index_of t names) ≡ some t
unfolding index_of
index_of-found t [] h = absurd (omega arith)
index_of-found t (s ∷ ss) h = elim (Bool-cases (str_eq t s)) [
  | inl e ↦ rw e (ap some (sym (eq_of_str_eq t s e)))
  | inr e ↦ rw e (index_of-found t ss (ground arith))
]

index_of-append :
    (t : CString) (names more : List CString)
    → index_of t names < length names
    → index_of t (names ++ more) ≡ index_of t names
unfolding index_of
index_of-append t [] more h = absurd (omega arith)
index_of-append t (s ∷ ss) more h = ground (arith, index_of-append t ss more)

index_of-new :
    (t : CString) (names : List CString)
    → length names ≤ index_of t names
    → index_of t (names ++ t ∷ []) ≡ length names
unfolding index_of
index_of-new t [] h = rw (str_eq_refl t) refl
index_of-new t (s ∷ ss) h = ground (arith, index_of-new t ss)

-- Each name is found at its own number, so no name is there twice.
abbrev pub IsNumbered : List CString → Type 0
IsNumbered names = (i : ℕ) (t : CString) → get_elem? names i ≡ some t → index_of t names ≡ i

snoc-cases :
    (names : List CString) (t u : CString) (i : ℕ)
    → get_elem? (names ++ t ∷ []) i ≡ some u
    → (get_elem? names i ≡ some u) ⊎ ((i ≡ length names) × (t ≡ u))
snoc-cases [] t u zero h = inr (refl, ground arith)
snoc-cases [] t u (suc i) h = cc
snoc-cases (s ∷ ss) t u zero h = inl h
snoc-cases (s ∷ ss) t u (suc i) h = elim (snoc-cases ss t u i h) [
  | inl e ↦ inl e
  | inr (e, f) ↦ inr (ap suc e, f)
]

in_bounds :
    (names : List CString) (t : CString) (i : ℕ) → get_elem? names i ≡ some t → i < length names
in_bounds [] t i h = cc
in_bounds (s ∷ ss) t zero h = omega arith
in_bounds (s ∷ ss) t (suc i) h = omega (arith, in_bounds ss t i h)

snoc-IsNumbered :
    (names : List CString) (t : CString)
    → IsNumbered names
    → length names ≤ index_of t names
    → IsNumbered (names ++ t ∷ [])
snoc-IsNumbered names t num new i u h = elim (snoc-cases names t u i h) [
  | inl e ↦
      let at_i = num i u e in
      index_of-append u names (t ∷ []) (omega (arith, in_bounds names u i e)) ∙ at_i
  | inr (e, f) ↦ rw (e, ← f) (index_of-new t names new)
]

-- The later table has the earlier one at its start.
abbrev pub Extends : List CString → List CString → Type 0
Extends names names' = (more : List CString) × (names' ≡ names ++ more)

pub Extends-refl : (names : List CString) → Extends names names
Extends-refl names = ([], sym (append-nil names))

pub Extends-trans : (a b c : List CString) → Extends a b → Extends b c → Extends a c
Extends-trans a b c (m, e) (n, f) = (m ++ n, f ∙ ap (λ l. l ++ n) e ∙ append_assoc a m n)

abbrev pub IsTable : List CString → Type 0
IsTable names = IsNumbered names × (length names ≤ 100)

-- A table that has only grown.
abbrev pub Grows : List CString → List CString → Type 0
Grows names names' = Extends names names' × IsTable names'

pub enter-Grows :
    (t : CString) (names : List CString)
    → IsTable names
    → length names < 100
    → (names' : List CString) × (enter t (index_of t names) names ≡ ok names')
      × Grows names names'
      × (index_of t names' ≡ index_of t names)
      × (index_of t names < length names')
unfolding enter
enter-Grows t names (num, le) h = elim (Bool-cases (leb (length names) (index_of t names))) [
  | inr e ↦ (names, rw e refl, (Extends-refl names, (num, le)), refl, ground arith)
  | inl e ↦
      let new : length names ≤ index_of t names = ground arith in
      let same : index_of t names ≡ length names = omega (arith, index_of-le t names) in
      let room : leb 100 (index_of t names) ≡ false = ground arith in
      let long = length-append names (t ∷ []) in
      (
        names ++ t ∷ [],
        rw (e, room) refl,
        ((t ∷ [], refl), (snoc-IsNumbered names t num new, omega arith)),
        index_of-new t names new ∙ sym same,
        omega arith,
      )
]
