-- ===== src/Clients/Internal/Passes.antt =====
-- unit/test_internal.c in a library that stores what it is given.
use pmix_tests.Base.{ℕ, ◌<◌, ◌^◌, ◌≡◌, refl, ◌∙◌, Option, some, arith, length}
use pmix_tests.Base.Int.{pos}
use pmix_tests.Base.Text.{CString}
use pmix_tests.Base.Status.{success}
use pmix_tests.Published.{Proc}
use pmix_tests.Options.Params.{Params}
use pmix_tests.Clients.{Value, string, Library, Floats, same_key}
use pmix_tests.Clients.Outcomes.{Goes, goes, Goes-bind}
use pmix_tests.Clients.Store.{IsStore}
use pmix_tests.Clients.Texts.Kept.{Puts, store_texts-Goes, commit_fence-Goes, get_texts-Goes}
use pmix_tests.Clients.Internal.{internal_text, store_internal, test_internal}

module _ {L F : Type 0} {lib : Proc → Library L F} {view : L → Proc → CString → Option (Value F)}
    (fl : Floats F) (store : IsStore lib view) (max_nslen : ℕ) (self : Proc) where
  store_internal-Puts : Puts fl store max_nslen self (store_internal (lib self) fl max_nslen self)
  unfolding store_internal
  store_internal-Puts key sval s =
      rw (store.internal_status self key (string sval) s)
        (goes (store.internal_view self key (string sval) s))

  -- A client that stores any number of texts for itself reads each of them back after the fence, so
  -- that the test returns PMIX_SUCCESS, if the texts fit into their array.
  pub test_internal-passes :
      (params : Params) (n : ℕ) (s : L)
      → params.test_internal ≡ pos n
      → n < 2 ^ 31
      → ((i : ℕ) → i < n → length (internal_text self i) < max_nslen)
      → Goes
          (λ rc s'.
            (rc ≡ success)
            × ((i : ℕ)
                → i < n
                → view s' self (same_key (pos i)) ≡ some (string (internal_text self i))))
          (test_internal (lib self) fl max_nslen self params s)
  unfolding test_internal
  test_internal-passes params n s e small fits = rw e (
      Goes-bind _
        (store_texts-Goes fl store max_nslen self (store_internal (lib self) fl max_nslen self)
          (internal_text self) n 0 s store_internal-Puts (λ i lt. fits i (omega arith))
          (omega arith))
        λ _ s1 stored. Goes-bind _ (commit_fence-Goes fl store max_nslen self s1) λ _ s2 same.
          let known : (i : ℕ)
              → i < n
              → view s2 self (same_key (pos i)) ≡ some (string (internal_text self i)) =
            λ i lt. same (same_key (pos i)) ∙ ground (arith, stored i (omega arith)) in
          Goes-bind _
            (get_texts-Goes fl store max_nslen self (internal_text self) n 0 s2
              (λ i lt. fits i (omega arith)) (λ i lt. known i (omega arith)))
            λ _ s3 kept. goes (refl, λ i lt. kept (same_key (pos i)) ∙ known i lt))
