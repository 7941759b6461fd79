-- ===== src/Clients/Texts/Kept.antt =====
-- The texts of unit/test_replace.c and unit/test_internal.c in a library that stores them.
use pmix_tests.Base.{
  ℕ, zero, suc, ◌+◌, ◌≤◌, ◌<◌, ◌^◌, ◌≡◌, refl, sym, ◌∙◌, inl, inr, Bool, true, false, ◌&&◌, Option,
  some, [], ◌∷◌, ◌==◌, ==_iff, leb, ltb, length, subst, arith, if◌then◌else◌, Bool-cases,
}
use pmix_tests.Base.Int.{pos}
use pmix_tests.Base.Text.{CString, codes, str_eq, str_eq_refl}
use pmix_tests.Published.{Proc}
use pmix_tests.Options.Numbers.{print_int}
use pmix_tests.Options.Ranges.{wildcard}
use pmix_tests.Clients.{
  Value, Scope, string, Body, Library, Floats, same_key, put, get_or_leave, get_blocking,
}
use pmix_tests.Clients.Outcomes.{Goes, goes, Goes-bind, Goes-mono}
use pmix_tests.Clients.Store.{IsStore}
use pmix_tests.Clients.Fence.Keys.{str_eq-append, print_int-differ}
use pmix_tests.Clients.Texts.{print_into, store_texts, commit_fence, get_texts}

pub print_into-Goes :
    {L : Type 0} (max_nslen : ℕ) (text : CString) (s : L)
    → length text < max_nslen
    → Goes (λ t s'. (t ≡ text) × (s' ≡ s)) (print_into max_nslen text s)
unfolding print_into
print_into-Goes max_nslen text s fits =
    let e : ltb (length text) max_nslen ≡ true = ground arith in rw e (goes (refl, refl))

pub same_key-differ :
    (i j : ℕ)
    → i < 2 ^ 31
    → j < 2 ^ 31
    → (i == j) ≡ false
    → str_eq (same_key (pos i)) (same_key (pos j)) ≡ false
same_key-differ i j hi hj ne =
    str_eq-append (codes "key-") (print_int (pos i)) (print_int (pos j))
    ∙ print_int-differ i j hi hj ne

-- Is `i` one of `n` numbers from `idx` on?
abbrev pub between : ℕ → ℕ → ℕ → Bool
between idx n i = leb idx i && ltb i (idx + n)

module _ {L F : Type 0} {lib : Proc → Library L F} {view : L → Proc → CString → Option (Value F)}
    (fl : Floats F) (store : IsStore lib view) (max_nslen : ℕ) (self : Proc) where
  -- What storing one text does to the keys of the client.
  abbrev pub Puts : (CString → CString → Body L (Unit {0})) → Type 0
  Puts put =
      (key sval : CString) (s : L)
      → Goes
          (λ _ s'.
            (j : CString)
            → view s' self j ≡ (if str_eq j key then some (string sval) else view s self j))
          (put key sval s)

  pub put-Puts : (scope : Scope) → Puts (λ key sval. put (lib self) fl scope key (string sval))
  unfolding put
  put-Puts scope key sval s =
      rw (store.put_status self scope key (string sval) s)
        (goes (store.put_view self scope key (string sval) s))

  get-Goes :
      (sval key : CString) (s : L)
      → view s self key ≡ some (string sval)
      → Goes
          (λ _ s'. (j : CString) → view s' self j ≡ view s self j)
          (get_or_leave (lib self) fl true (string sval) self key s)
  unfolding get_blocking
  get-Goes sval key s here =
      let (s', e, same) = store.get self key s (string sval) here in
      rw (e, str_eq_refl sval) (goes same)

  pub store_texts-Goes :
      (put : CString → CString → Body L (Unit {0})) (text : ℕ → CString) (n idx : ℕ) (s : L)
      → Puts put
      → ((i : ℕ) → i < idx + n → length (text i) < max_nslen)
      → idx + n ≤ 2 ^ 31
      → Goes
          (λ _ s'.
            (i : ℕ)
            → i < 2 ^ 31
            → view s' self (same_key (pos i)) ≡ (
                if between idx n i then some (string (text i)) else view s self (same_key (pos i))))
          (store_texts max_nslen put text n idx s)
  unfolding store_texts
  store_texts-Goes put text zero idx s puts fits small = goes (λ i lt. ground arith)
  store_texts-Goes put text (suc n) idx s puts fits small =
      Goes-bind _ (print_into-Goes max_nslen (text idx) s (fits idx (omega arith)))
        λ t s0 (e, same).
          rw (e, same)
            (Goes-bind (λ _. store_texts max_nslen put text n (suc idx))
              (puts (same_key (pos idx)) (text idx) s)
              λ _ s1 h.
                Goes-mono
                  (store_texts-Goes put text n (suc idx) s1 puts (λ i lt. fits i (omega arith))
                    (omega arith))
                  (λ _ s' k i lt. elim (Bool-cases (i == idx)) [
                    | inl e ↦
                        subst
                          (λ m. view s' self (same_key (pos m)) ≡ (
                            if between idx (suc n) m
                            then some (string (text m))
                            else view s self (same_key (pos m))))
                          (sym ((==_iff i idx).0 e))
                          (ground (
                            arith,
                            k idx (omega arith),
                            h (same_key (pos idx)),
                            str_eq_refl (same_key (pos idx)),
                          ))
                    | inr e ↦ ground (
                      arith,
                      k i lt,
                      h (same_key (pos i)),
                      same_key-differ i idx lt (omega arith) e,
                    )
                  ]))

  pub commit_fence-Goes :
      (s : L)
      → Goes
          (λ _ s'. (j : CString) → view s' self j ≡ view s self j)
          (commit_fence (lib self) fl max_nslen self s)
  unfolding commit_fence
  commit_fence-Goes s =
      rw
        (
          store.commit_status self s,
          store.fence_status self true (record { nspace = self.nspace; who = wildcard } ∷ [])
              ((lib self).commit s).1,
        )
        (goes (λ j.
          store.fence_view self true (record { nspace = self.nspace; who = wildcard } ∷ [])
            ((lib self).commit s).1 j
          ∙ store.commit_view self s j))

  pub get_texts-Goes :
      (text : ℕ → CString) (n idx : ℕ) (s : L)
      → ((i : ℕ) → i < idx + n → length (text i) < max_nslen)
      → ((i : ℕ) → i < idx + n → view s self (same_key (pos i)) ≡ some (string (text i)))
      → Goes
          (λ _ s'. (j : CString) → view s' self j ≡ view s self j)
          (get_texts (lib self) fl max_nslen self text n idx s)
  unfolding get_texts
  get_texts-Goes text zero idx s fits known = goes (λ j. refl)
  get_texts-Goes text (suc n) idx s fits known =
      Goes-bind _ (print_into-Goes max_nslen (text idx) s (fits idx (omega arith)))
        λ t s0 (e, same).
          rw (e, same)
            (Goes-bind (λ _. get_texts (lib self) fl max_nslen self text n (suc idx))
              (get-Goes (text idx) (same_key (pos idx)) s (known idx (omega arith)))
              λ _ s1 kept.
                Goes-mono
                  (get_texts-Goes text n (suc idx) s1 (λ i lt. fits i (omega arith))
                    (λ i lt. kept (same_key (pos i)) ∙ known i (omega arith)))
                  (λ _ s' more j. more j ∙ kept j))
