-- ===== src/Clients/Fence/Puts.antt =====
-- What a client of unit/test_fence.c has put and committed up to its fence.
use pmix_tests.Base.{
  false, ℕ, zero, suc, ◌+◌, ◌≤◌, ◌<◌, ◌^◌, ◌≡◌, refl, sym, ap, ◌∙◌, inl, inr, Bool, Option, some,
  ◌==◌, ==_iff, subst, arith, if◌then◌else◌, Bool-cases,
}
use pmix_tests.Base.Text.{CString, str_eq, str_eq_refl}
use pmix_tests.Published.{Proc}
use pmix_tests.Clients.{
  Value, Datum, global, ◌>>=◌, Library, Floats, to_value, set_key, check, call, put,
}
use pmix_tests.Clients.Outcomes.{Goes, goes, Goes-bind, Goes-mono}
use pmix_tests.Clients.Store.{same_proc}
use pmix_tests.Clients.Fence.Shared.{IsExchange, or_else}
use pmix_tests.Clients.Fence.Gets.{Holds}
use pmix_tests.Clients.Fence.{datum_of, put_values, put_commit}
use pmix_tests.Clients.Fence.Keys.{set_key-differ, same_proc_refl}

module _ {F : Type 0} (fl : Floats F) (use_same_keys : Bool) where
  -- The value under a key after `n` of the PUTs from number `ind` on.
  abbrev written : ℕ → Proc → ℕ → ℕ → CString → Option (Value F) → Option (Value F)
  written f c zero ind j old = old
  written f c (suc n) ind j old = written f c n (suc ind) j (
      if str_eq j (set_key use_same_keys f ind) then some (to_value fl (datum_of f c ind)) else old)

  written_before :
      (f : ℕ) (c : Proc) (n ind i : ℕ) (old : Option (Value F))
      → i < ind
      → ind + n < 2 ^ 31
      → written f c n ind (set_key use_same_keys f i) old ≡ old
  written_before f c zero ind i old lt small = refl
  written_before f c (suc n) ind i old lt small =
      rw (set_key-differ use_same_keys f i ind (omega arith) (omega arith) (ground arith))
        (written_before f c n (suc ind) i old (omega arith) (omega arith))

  -- Each of the five values is there in the end.
  written_at :
      (f : ℕ) (c : Proc) (n ind i : ℕ) (old : Option (Value F))
      → ind ≤ i
      → i < ind + n
      → ind + n < 2 ^ 31
      → written f c n ind (set_key use_same_keys f i) old ≡ some (to_value fl (datum_of f c i))
  written_at f c zero ind i old le lt small = absurd (omega arith)
  written_at f c (suc n) ind i old le lt small = elim (Bool-cases (i == ind)) [
    | inl e ↦
        let same : i ≡ ind = (==_iff i ind).0 e in
        subst
          (λ k.
            written f c (suc n) ind (set_key use_same_keys f k) old
            ≡ some (to_value fl (datum_of f c k)))
          (sym same)
          (rw (str_eq_refl (set_key use_same_keys f ind))
            (written_before f c n (suc ind) ind _ (omega arith) (omega arith)))
    | inr e ↦
        rw (set_key-differ use_same_keys f i ind (omega arith) (omega arith) e)
          (written_at f c n (suc ind) i old (ground arith) (omega arith) (omega arith))
  ]

module _ {L F : Type 0} {lib : Proc → Library L F}
    {staged committed : L → Proc → CString → Option (Value F)}
    {visible : L → Proc → Proc → CString → Option (Value F)} (fl : Floats F)
    (store : IsExchange lib staged committed visible) (use_same_keys : Bool) (f : ℕ)
    (c : Proc) where
  abbrev Stages : ℕ → ℕ → L → L → Type 0
  Stages n ind s s' =
      ((j : CString) → staged s' c j ≡ written fl use_same_keys f c n ind j (staged s c j))
      × ((p : Proc) (j : CString) → committed s' p j ≡ committed s p j)

  put-Goes :
      (key : CString) (d : Datum) (s : L)
      → Goes
          (λ _ s'.
            ((j : CString)
              → staged s' c j ≡ (if str_eq j key then some (to_value fl d) else staged s c j))
            × ((p : Proc) (j : CString) → committed s' p j ≡ committed s p j))
          (put (lib c) fl global key d s)
  unfolding put
  put-Goes key d s =
      rw (store.put_status c key (to_value fl d) s) (
        goes
          (store.put_staged c key (to_value fl d) s, store.put_committed c key (to_value fl d) s))

  put_values-Stages :
      (n ind : ℕ) (s : L)
      → Goes (λ _ s'. Stages n ind s s') (put_values (lib c) fl use_same_keys f c n ind s)
  unfolding put_values
  put_values-Stages zero ind s = goes ((λ j. refl), (λ p j. refl))
  put_values-Stages (suc n) ind s =
      let key = set_key use_same_keys f ind in
      Goes-bind (λ _. put_values (lib c) fl use_same_keys f c n (suc ind))
        (put-Goes key (datum_of f c ind) s)
        (λ _ s1 h. Goes-mono (put_values-Stages n (suc ind) s1) (λ _ s' k. (
          (λ j. k.0 j ∙ ap (written fl use_same_keys f c n (suc ind) j) (h.0 j)),
          (λ p j. k.1 p j ∙ h.1 p j),
        )))

  -- The five values of the client are committed, and what the others have committed is kept.
  abbrev pub Commits : L → L → Type 0
  Commits s s' =
      Holds fl use_same_keys f c (committed s' c)
      × ((p : Proc) (j : CString) → same_proc p c ≡ false → committed s' p j ≡ committed s p j)

  pub put_commit-Commits :
      (s : L) → Goes (λ _ s'. Commits s s') (put_commit (lib c) fl use_same_keys f c s)
  unfolding put_commit or_else
  put_commit-Commits s =
      Goes-bind (λ _. call (lib c).commit >>= check) (put_values-Stages 5 0 s)
        (λ _ s1 h. rw (store.commit_status c s1) (
          goes (
            (λ i lt.
                let key = set_key use_same_keys f i in
                store.commit_committed c s1 c key
                ∙ rw
                    (
                      same_proc_refl c,
                      h.0 key,
                      written_at fl use_same_keys f c 5 0 i (staged s c key) (omega arith)
                          (omega arith) (omega arith),
                    )
                    refl),
            (λ p j ne. store.commit_committed c s1 p j ∙ rw (ne, h.1 p j) refl),
          )))
