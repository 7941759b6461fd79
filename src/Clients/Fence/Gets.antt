-- ===== src/Clients/Fence/Gets.antt =====
-- The Gets of unit/test_fence.c succeed when the data of all participants are known.
use pmix_tests.Base.{
  ℕ, zero, suc, ◌+◌, ◌*◌, ◌≤◌, ◌<◌, ◌^◌, ◌%◌, ◌≡◌, refl, ◌∙◌, Bool, true, false, Option, some, List,
  [], ◌∷◌, ==_refl, arith,
}
use pmix_tests.Base.Int.{pos, eqb_refl}
use pmix_tests.Base.Text.{CString, str_eq_refl, eq_of_str_eq}
use pmix_tests.Published.{Proc}
use pmix_tests.Options.Numbers.{to_int}
use pmix_tests.Clients.{
  Value, Datum, Library, Floats, to_value, accepts, set_key, get_or_leave, get_blocking,
  get_nonblocking,
}
use pmix_tests.Clients.Outcomes.{Goes, goes, Goes-bind, Goes-mono}
use pmix_tests.Clients.Store.{same_proc}
use pmix_tests.Clients.Fence.Shared.{IsExchange}
use pmix_tests.Clients.Fence.{datum_of, is_blocking, get_values, get_all}

pub proc_eq : (p c : Proc) → same_proc p c ≡ true → p ≡ c
proc_eq p c h = ground (arith, eq_of_str_eq p.nspace c.nspace)

-- What the comparison of `float` has to do for the data of a fence.
abbrev pub KeepsFloat : {F : Type 0} → Floats F → ℕ → Type 0
KeepsFloat fl f = fl.differs (fl.of_hundredths (100 * f + 110)) (100 * f + 110) ≡ false

datum_of-accepts :
    {F : Type 0} (fl : Floats F) (f : ℕ) (p : Proc) (i : ℕ)
    → f + 15 < 2 ^ 16
    → KeepsFloat fl f
    → accepts fl (datum_of f p i) (to_value fl (datum_of f p i)) ≡ true
unfolding datum_of
datum_of-accepts fl f p zero small keeps = str_eq_refl _
datum_of-accepts fl f p (suc zero) small keeps = eqb_refl (to_int (pos ((f + p.rank) % 2 ^ 32)))
datum_of-accepts fl f p (suc (suc zero)) small keeps = ground (arith, keeps)
datum_of-accepts fl f p (suc (suc (suc zero))) small keeps = ==_refl _
datum_of-accepts fl f p (suc (suc (suc (suc i)))) small keeps = ground arith

-- All five values that a client puts in a fence are there.
abbrev pub Holds : {F : Type 0} → Floats F → Bool → ℕ → Proc → (CString → Option (Value F)) → Type 0
Holds fl use_same_keys f p there =
    (i : ℕ) → i < 5 → there (set_key use_same_keys f i) ≡ some (to_value fl (datum_of f p i))

abbrev pub AllHold :
    {F : Type 0} → Floats F → Bool → ℕ → List Proc → (Proc → CString → Option (Value F)) → Type 0
AllHold fl use_same_keys f [] there = Unit {0}
AllHold fl use_same_keys f (p ∷ ps) there =
    Holds fl use_same_keys f p (there p) × AllHold fl use_same_keys f ps there

pub AllHold-same :
    {F : Type 0} (fl : Floats F) (use_same_keys : Bool) (f : ℕ) (ps : List Proc)
    (there there' : Proc → CString → Option (Value F))
    → ((q : Proc) (j : CString) → there' q j ≡ there q j)
    → AllHold fl use_same_keys f ps there
    → AllHold fl use_same_keys f ps there'
AllHold-same fl use_same_keys f [] there there' same h = tt
AllHold-same fl use_same_keys f (p ∷ ps) there there' same (k, h) = (
  (λ i lt. same p (set_key use_same_keys f i) ∙ k i lt),
  AllHold-same fl use_same_keys f ps there there' same h,
)

module _ {L F : Type 0} {lib : Proc → Library L F}
    {staged committed : L → Proc → CString → Option (Value F)}
    {visible : L → Proc → Proc → CString → Option (Value F)} (fl : Floats F)
    (store : IsExchange lib staged committed visible) (use_same_keys : Bool) (c : Proc) where
  abbrev pub Same : L → L → Type 0
  Same s s' =
      ((q : Proc) (j : CString) → visible s' c q j ≡ visible s c q j)
      × ((q : Proc) (j : CString) → committed s' q j ≡ committed s q j)

  Same-trans : {s s1 s2 : L} → Same s s1 → Same s1 s2 → Same s s2
  Same-trans (a, b) (a', b') = ((λ q j. a' q j ∙ a q j), (λ q j. b' q j ∙ b q j))

  get-Goes :
      (p : Proc) (blocking : Bool) (d : Datum) (key : CString) (s : L)
      → visible s c p key ≡ some (to_value fl d)
      → accepts fl d (to_value fl d) ≡ true
      → Goes (λ _ s'. Same s s') (get_or_leave (lib c) fl blocking d p key s)
  unfolding get_blocking get_nonblocking
  get-Goes p true d key s here accepted =
      let (s', e, seen, sent) = store.get c p key s (to_value fl d) here in
      rw (e, accepted) (goes (seen, sent))
  get-Goes p false d key s here accepted =
      let (s', e, seen, sent) = store.get_nb c p key s (to_value fl d) here in
      rw (e, accepted) (goes (seen, sent))

  get_values-Goes :
      (f : ℕ) (p : Proc) (n ind : ℕ) (s : L)
      → f + 15 < 2 ^ 16
      → KeepsFloat fl f
      → ind + n ≤ 5
      → Holds fl use_same_keys f p (visible s c p)
      → Goes (λ _ s'. Same s s') (get_values (lib c) fl use_same_keys f p n ind s)
  unfolding get_values
  get_values-Goes f p zero ind s small keeps le known = goes ((λ q j. refl), (λ q j. refl))
  get_values-Goes f p (suc n) ind s small keeps le known =
      Goes-bind (λ _. get_values (lib c) fl use_same_keys f p n (suc ind))
        (get-Goes p (is_blocking ind) (datum_of f p ind) (set_key use_same_keys f ind) s
          (known ind (omega arith)) (datum_of-accepts fl f p ind small keeps))
        (λ _ s1 same.
          Goes-mono
            (get_values-Goes f p n (suc ind) s1 small keeps (omega arith)
              (λ i lt. same.0 p (set_key use_same_keys f i) ∙ known i lt))
            (λ _ s' more. Same-trans same more))

  pub get_all-Goes :
      (f : ℕ) (ps : List Proc) (s : L)
      → f + 15 < 2 ^ 16
      → KeepsFloat fl f
      → AllHold fl use_same_keys f ps (visible s c)
      → Goes (λ _ s'. Same s s') (get_all (lib c) fl use_same_keys f ps s)
  unfolding get_all
  get_all-Goes f [] s small keeps h = goes ((λ q j. refl), (λ q j. refl))
  get_all-Goes f (p ∷ ps) s small keeps (k, h) =
      Goes-bind (λ _. get_all (lib c) fl use_same_keys f ps)
        (get_values-Goes f p 5 0 s small keeps (omega arith) k)
        (λ _ s1 same.
          Goes-mono
            (get_all-Goes f ps s1 small keeps
              (AllHold-same fl use_same_keys f ps (visible s c) (visible s1 c) same.0 h))
            (λ _ s' more. Same-trans same more))
