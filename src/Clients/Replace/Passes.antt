-- ===== src/Clients/Replace/Passes.antt =====
-- unit/test_replace.c in a library that stores what it is given.
use pmix_tests.Base.{
  ℕ, ◌+◌, ◌<◌, ◌^◌, ◌≡◌, refl, ◌∙◌, inl, inr, true, Option, some, List, [], ◌∷◌, ◌++◌, ◌==◌, ==_iff,
  ==_refl, map, length, length-append, subst, arith, if◌then◌else◌, All, Bool-cases, ok,
}
use pmix_tests.Base.Int.{ℤ, pos}
use pmix_tests.Base.Text.{CString, codes, str_eq_refl}
use pmix_tests.Base.Status.{success}
use pmix_tests.Published.{Proc}
use pmix_tests.Options.Numbers.{print_int}
use pmix_tests.Options.Replace.{parse_replace}
use pmix_tests.Options.Replace.Indexes.{print_keys, parse_replace-print_keys}
use pmix_tests.Clients.{Value, string, global, Library, Floats, same_key, put}
use pmix_tests.Clients.Outcomes.{Goes, goes, Goes-bind, Goes-mono}
use pmix_tests.Clients.Store.{IsStore}
use pmix_tests.Clients.Texts.Kept.{
  put-Puts, print_into-Goes, same_key-differ, store_texts-Goes, commit_fence-Goes, get_texts-Goes,
}
use pmix_tests.Clients.Replace.{
  key_is_replace, first_text, replaced_text, last_text, put_replaced, replace_keys, test_replace,
}

abbrev pub indexes : List ℕ → List ℤ
indexes ns = map pos ns

first_fits :
    (self : Proc) (max_nslen i : ℕ)
    → length (replaced_text self (pos i)) < max_nslen
    → length (first_text self (pos i)) < max_nslen
first_fits self max_nslen i h =
    let e : length (replaced_text self (pos i)) ≡ length (first_text self (pos i)) + 14 =
      length-append (first_text self (pos i)) (codes ": replaced key") in
    omega arith

last_fits :
    (self : Proc) (max_nslen : ℕ) (ks : List ℕ) (i : ℕ)
    → length (replaced_text self (pos i)) < max_nslen
    → length (last_text self (indexes ks) i) < max_nslen
last_fits self max_nslen ks i h = elim (Bool-cases (key_is_replace (indexes ks) (pos i))) [
  | inl e ↦ rw e h
  | inr e ↦ rw e (first_fits self max_nslen i h)
]

listed_fits :
    (self : Proc) (max_nslen n : ℕ) (ks : List ℕ)
    → n < 2 ^ 31
    → All (λ k. k < n) ks
    → ((i : ℕ) → i < n → length (replaced_text self (pos i)) < max_nslen)
    → All (λ k. (k < 2 ^ 31) × (length (replaced_text self (pos k)) < max_nslen)) ks
listed_fits self max_nslen n [] small h fits = tt
listed_fits self max_nslen n (k ∷ ks) small (lt, h) fits =
    ((omega arith, fits k lt), listed_fits self max_nslen n ks small h fits)

module _ {L F : Type 0} {lib : Proc → Library L F} {view : L → Proc → CString → Option (Value F)}
    (fl : Floats F) (store : IsStore lib view) (max_nslen : ℕ) (self : Proc) where
  -- The replaced keys have their new text, every other one is as before.
  put_replaced-Goes :
      (ks : List ℕ) (s : L)
      → All (λ k. (k < 2 ^ 31) × (length (replaced_text self (pos k)) < max_nslen)) ks
      → Goes
          (λ _ s'.
            (i : ℕ)
            → i < 2 ^ 31
            → view s' self (same_key (pos i)) ≡ (
                if key_is_replace (indexes ks) (pos i)
                then some (string (replaced_text self (pos i)))
                else view s self (same_key (pos i))))
          (put_replaced (lib self) fl max_nslen self (indexes ks) s)
  unfolding put_replaced key_is_replace
  put_replaced-Goes [] s h = goes (λ i lt. refl)
  put_replaced-Goes (k ∷ ks) s ((small, fits), more) =
      Goes-bind _ (print_into-Goes max_nslen (replaced_text self (pos k)) s fits) λ t s0 (e, same).
        rw (e, same)
          (Goes-bind (λ _. put_replaced (lib self) fl max_nslen self (indexes ks))
            (put-Puts fl store max_nslen self global (same_key (pos k)) (replaced_text self (pos k))
              s)
            λ _ s1 h. Goes-mono (put_replaced-Goes ks s1 more) (λ _ s' g i lt.
              elim (Bool-cases (k == i)) [
                | inl e ↦
                    subst
                      (λ m. view s' self (same_key (pos m)) ≡ (
                        if key_is_replace (indexes (k ∷ ks)) (pos m)
                        then some (string (replaced_text self (pos m)))
                        else view s self (same_key (pos m))))
                      ((==_iff k i).0 e)
                      (ground (
                        arith,
                        g k small,
                        h (same_key (pos k)),
                        str_eq_refl (same_key (pos k)),
                        ==_refl k,
                      ))
                | inr e ↦ ground (
                  arith,
                  g i lt,
                  h (same_key (pos i)),
                  same_key-differ i k lt small (ground arith),
                )
              ]))

  choice :
      (ks : List ℕ) (i : ℕ) (old : Option (Value F))
      → old ≡ some (string (first_text self (pos i)))
      → (if key_is_replace (indexes ks) (pos i)
          then some (string (replaced_text self (pos i)))
          else old)
        ≡ some (string (last_text self (indexes ks) i))
  choice ks i old e = ground arith

  -- The operand of --test-replace asks for `n` keys and for the indexes `ks`, however it is written.
  test_replace-passes :
      (key_replace : CString) (n ret : ℕ) (ks : List ℕ) (s : L)
      → parse_replace key_replace true ≡ ok (pos n, ret, indexes ks)
      → n < 2 ^ 31
      → All (λ k. (k < 2 ^ 31) × (length (replaced_text self (pos k)) < max_nslen)) ks
      → ((i : ℕ) → i < n → length (replaced_text self (pos i)) < max_nslen)
      → Goes
          (λ rc s'.
            (rc ≡ success)
            × ((i : ℕ)
                → i < n
                → view s' self (same_key (pos i)) ≡ some (string (last_text self (indexes ks) i))))
          (test_replace (lib self) fl max_nslen self key_replace s)
  unfolding test_replace replace_keys
  test_replace-passes key_replace n ret ks s parsed small listed fits = rw parsed (
      Goes-bind _
        (store_texts-Goes fl store max_nslen self
          (λ key sval. put (lib self) fl global key (string sval)) (λ i. first_text self (pos i)) n
          0 s (put-Puts fl store max_nslen self global)
          (λ i lt. first_fits self max_nslen i (fits i (omega arith))) (omega arith))
        λ _ s1 stored. Goes-bind _ (commit_fence-Goes fl store max_nslen self s1) λ _ s2 same2.
          Goes-bind _ (put_replaced-Goes ks s2 listed) λ _ s3 replaced.
            Goes-bind _ (commit_fence-Goes fl store max_nslen self s3) λ _ s4 same4.
              let known : (i : ℕ)
                  → i < n
                  → view s4 self (same_key (pos i))
                    ≡ some (string (last_text self (indexes ks) i)) =
                λ i lt.
                  same4 (same_key (pos i))
                  ∙ replaced i (omega arith)
                  ∙ choice ks i (view s2 self (same_key (pos i)))
                      (same2 (same_key (pos i)) ∙ ground (arith, stored i (omega arith))) in
              Goes-bind _
                (get_texts-Goes fl store max_nslen self (last_text self (indexes ks)) n 0 s4
                  (λ i lt. last_fits self max_nslen ks i (fits i (omega arith)))
                  (λ i lt. known i (omega arith)))
                λ _ s5 kept. goes (refl, λ i lt. kept (same_key (pos i)) ∙ known i lt))

  -- With `n` keys and a list of indexes below `n`, printed as the help of the program describes, the
  -- test returns PMIX_SUCCESS: the client puts `n` texts, makes them known, replaces those of the
  -- listed indexes, and reads back the new text of each listed index and the first text of every other
  -- key. The texts have to fit into their array.
  pub test_replace-print_keys :
      (n k : ℕ) (ks : List ℕ) (s : L)
      → n < 2 ^ 31
      → All (λ i. i < n) (k ∷ ks)
      → ((i : ℕ) → i < n → length (replaced_text self (pos i)) < max_nslen)
      → Goes
          (λ rc s'.
            (rc ≡ success)
            × ((i : ℕ)
                → i < n
                → view s' self (same_key (pos i))
                  ≡ some (string (last_text self (indexes (k ∷ ks)) i))))
          (test_replace
            (lib self)
            fl
            max_nslen
            self
            (print_int (pos n) ++ b':' ∷ print_keys k ks)
            s)
  test_replace-print_keys n k ks s small listed fits =
      test_replace-passes (print_int (pos n) ++ b':' ∷ print_keys k ks) n 0 (k ∷ ks) s
        (parse_replace-print_keys n k ks small listed) small
        (listed_fits self max_nslen n (k ∷ ks) small listed fits) fits
