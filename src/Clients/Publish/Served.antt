-- ===== src/Clients/Publish/Served.antt =====
-- The test of unit/test_publish.c when the calls of its library are answered by the callbacks
-- `publish_fn`, `lookup_fn` and `unpublish_fn` of unit/server_callbacks.c.
use pmix_tests.Base.{
  ℕ, ◌-◌, ◌≤◌, ◌≡◌, refl, ap, ◌∙◌, Bool, true, false, Option, none, some, List, [], ◌∷◌, ◌++◌,
  length, arith,
}
use pmix_tests.Base.Text.{CString}
use pmix_tests.Base.Status.{Status, success, err_not_found}
use pmix_tests.Published.{
  Proc, TestInfo, Pdata, find_key, new_info, or_new, publish_fn, lookup_fn, unpublish_fn,
}
use pmix_tests.Clients.{Value, string, returned}
use pmix_tests.Clients.Outcomes.{Goes-returned, Goes, goes, Goes-bind}
use pmix_tests.Clients.Publish.Item.{
  an_info, length-take_le, compare_own, item, publish_fn_new, slot_of, lookup_fn_new,
  lookup_fn_missing, transfer_only, unpublish_fn_new,
}
use pmix_tests.Clients.JobFence.{name_of}
use pmix_tests.Clients.Publish.{
  PublishLibrary, key_of, data_of, lookup_cb, new_pdata, compare, test_publish, test_lookup,
  test_unpublish, test_publish_lookup_common, test_publish_lookup,
}

-- The list of published data that a server keeps.
abbrev pub Published : Type 0 → Type 0
Published F = Option (List (TestInfo (Value F)))

-- What a lookup of one key ends with, before and after the server's answer has arrived.
abbrev pub asked :
    {F : Type 0} → ℕ → ℕ → CString → Published F → Option (List (Option (Pdata (Value F)))) × Status
asked max_nslen max_keylen key p = lookup_fn max_nslen max_keylen (some (key ∷ [])) true p

-- The library of the client `self` hands its calls to the server, whose data are `view`, and tells
-- the client what the server answers. A nonblocking lookup succeeds when the request is sent; where
-- there is no item its callback is given an empty array.
pub record IsServed {L F : Type 0} (lib : PublishLibrary L F) (max_nslen max_keylen : ℕ)
    (self : Proc) (view : L → Published F) : Type 0 where
  pub publish :
      (key : CString) (v : Value F) (s : L)
      → (s' : L) × (lib.publish key v s
          ≡ ((publish_fn self (an_info key v ∷ []) true (view s)).2, s'))
        × (view s' ≡ (publish_fn self (an_info key v ∷ []) true (view s)).0)
  pub publish_nb :
      (key : CString) (v : Value F) (s : L)
      → (s' : L) × (lib.publish_nb key v s
          ≡ ((publish_fn self (an_info key v ∷ []) true (view s)).2, true, s'))
        × (view s' ≡ (publish_fn self (an_info key v ∷ []) true (view s)).0)
  pub lookup_found :
      (d t : Pdata (Value F)) (s : L)
      → asked max_nslen max_keylen d.key (view s) ≡ (some (some t ∷ []), success)
      → (s' : L) × (lib.lookup d s ≡ (success, t, s')) × (view s' ≡ view s)
  pub lookup_missing :
      (d : Pdata (Value F)) (s : L)
      → asked max_nslen max_keylen d.key (view s) ≡ (none, err_not_found)
      → (s' : L) × (lib.lookup d s ≡ (err_not_found, d, s')) × (view s' ≡ view s)
  pub lookup_nb_found :
      (key : CString) (t : Pdata (Value F)) (s : L)
      → asked max_nslen max_keylen key (view s) ≡ (some (some t ∷ []), success)
      → (s' : L) × (lib.lookup_nb key s ≡ (success, some (t ∷ []), s')) × (view s' ≡ view s)
  pub lookup_nb_missing :
      (key : CString) (s : L)
      → asked max_nslen max_keylen key (view s) ≡ (none, err_not_found)
      → (s' : L) × (lib.lookup_nb key s ≡ (success, some [], s')) × (view s' ≡ view s)
  pub unpublish :
      (key : CString) (s : L)
      → (s' : L) × (lib.unpublish key s ≡ ((unpublish_fn (some (key ∷ [])) true (view s)).2, s'))
        × (view s' ≡ (unpublish_fn (some (key ∷ [])) true (view s)).0)
  pub unpublish_nb :
      (key : CString) (s : L)
      → (s' : L) × (lib.unpublish_nb key s
          ≡ ((unpublish_fn (some (key ∷ [])) true (view s)).2, true, s'))
        × (view s' ≡ (unpublish_fn (some (key ∷ [])) true (view s)).0)

module _ {L F : Type 0} {lib : PublishLibrary L F} {max_nslen max_keylen : ℕ} {self : Proc}
    {view : L → Published F} (served : IsServed lib max_nslen max_keylen self view) where
  -- The server's list holds the item of the client behind `l`, in which its key is not.
  abbrev Has : List (TestInfo (Value F)) → L → Type 0
  Has l s = view s ≡ some (l ++ new_info self (item max_keylen self) ∷ [])

  abbrev Lacks : List (TestInfo (Value F)) → Type 0
  Lacks l = find_key (key_of max_keylen self) l ≡ none

  test_publish-Goes :
      (l : List (TestInfo (Value F))) (blocking : Bool) (s : L)
      → or_new (view s) ≡ l
      → Lacks l
      → Goes
          (λ rc s'. (rc ≡ success) × Has l s')
          (test_publish lib max_nslen max_keylen self blocking s)
  unfolding test_publish
  test_publish-Goes l true s e lacks =
      let f = publish_fn_new self (item max_keylen self) l (view s) e lacks in
      let (s', run, after) = served.publish (key_of max_keylen self) (string (data_of self)) s in
      rw run (goes (ap (λ r. r.2) f, after ∙ ap (λ r. r.0) f))
  test_publish-Goes l false s e lacks =
      let f = publish_fn_new self (item max_keylen self) l (view s) e lacks in
      let (s', run, after) = served.publish_nb (key_of max_keylen self) (string (data_of self)) s in
      rw (run, f) (goes (refl, after ∙ ap (λ r. r.0) f))

  key_of_fits : length (key_of max_keylen self) ≤ max_keylen
  key_of_fits = ground (arith, length-take_le (max_keylen - 1) (name_of self))

  lookup-found :
      (l : List (TestInfo (Value F))) (blocking : Bool) (s : L)
      → Lacks l
      → Has l s
      → Goes
          (λ rc s'. (rc ≡ success) × (view s' ≡ view s))
          (test_lookup lib max_nslen max_keylen self blocking s)
  unfolding test_lookup
  lookup-found l true s lacks has =
      let found =
        lookup_fn_new max_nslen max_keylen self (item max_keylen self) l lacks key_of_fits in
      let (s', run, same) =
        served.lookup_found (new_pdata (key_of max_keylen self))
          (slot_of max_nslen self (item max_keylen self)) s (rw has found) in
      rw (run, compare_own F (data_of self)) (goes (refl, same))
  lookup-found l false s lacks has =
      let found =
        lookup_fn_new max_nslen max_keylen self (item max_keylen self) l lacks key_of_fits in
      let (s', run, same) =
        served.lookup_nb_found (key_of max_keylen self)
          (slot_of max_nslen self (item max_keylen self)) s (rw has found) in
      rw (run, transfer_only max_nslen self (item max_keylen self), compare_own F (data_of self))
        (goes (refl, same))

  lookup-missing :
      (blocking : Bool) (s : L)
      → Lacks (or_new (view s))
      → Goes
          (λ rc s'. (rc ≡ err_not_found) × (view s' ≡ view s))
          (returned (test_lookup lib max_nslen max_keylen self blocking) s)
  unfolding test_lookup compare lookup_cb
  lookup-missing true s lacks =
      let missing =
        lookup_fn_missing max_nslen max_keylen (key_of max_keylen self) (view s) lacks in
      let (s', run, same) = served.lookup_missing (new_pdata (key_of max_keylen self)) s missing in
      rw run (goes (refl, same))
  lookup-missing false s lacks =
      let missing =
        lookup_fn_missing max_nslen max_keylen (key_of max_keylen self) (view s) lacks in
      let (s', run, same) = served.lookup_nb_missing (key_of max_keylen self) s missing in
      rw run (goes (refl, same))

  unpublish-Goes :
      (l : List (TestInfo (Value F))) (blocking : Bool) (s : L)
      → Lacks l
      → Has l s
      → Goes
          (λ rc s'. (rc ≡ success) × (view s' ≡ some l))
          (test_unpublish lib max_nslen max_keylen self blocking s)
  unfolding test_unpublish
  unpublish-Goes l true s lacks has =
      let f = unpublish_fn_new self (item max_keylen self) l (view s) has lacks in
      let (s', run, after) = served.unpublish (key_of max_keylen self) s in
      rw run (goes (ap (λ r. r.2) f, after ∙ ap (λ r. r.0) f))
  unpublish-Goes l false s lacks has =
      let f = unpublish_fn_new self (item max_keylen self) l (view s) has lacks in
      let (s', run, after) = served.unpublish_nb (key_of max_keylen self) s in
      rw (run, f) (goes (refl, after ∙ ap (λ r. r.0) f))

  common-Goes :
      (l : List (TestInfo (Value F))) (blocking : Bool) (s : L)
      → or_new (view s) ≡ l
      → Lacks l
      → Goes
          (λ rc s'. (rc ≡ success) × (view s' ≡ some l))
          (returned (test_publish_lookup_common lib max_nslen max_keylen self blocking) s)
  unfolding test_publish_lookup_common
  common-Goes l blocking s e lacks =
      Goes-returned (test_publish_lookup_common lib max_nslen max_keylen self blocking) s (
        Goes-bind _ (test_publish-Goes l blocking s e lacks) λ rc s1 (good, has). rw good (
          Goes-bind _
            (Goes-returned (test_lookup lib max_nslen max_keylen self blocking) s1
              (lookup-found l blocking s1 lacks has))
            λ rc s2 (good, same). rw good (
              Goes-bind _ (unpublish-Goes l blocking s2 lacks (same ∙ has)) λ rc s3 (good, after).
                rw good (
                  Goes-bind _ (lookup-missing blocking s3 (rw after lacks))
                    λ rc s4 (bad, same). rw bad (goes (refl, same ∙ after))))))

  -- The test of a client whose key is not published yet, with a server that answers by its callbacks,
  -- returns PMIX_SUCCESS: it reads back what it published, with blocking and nonblocking calls, and
  -- no longer finds it in the end. The published data are then what they were.
  pub test_publish_lookup-passes :
      (s : L)
      → find_key (key_of max_keylen self) (or_new (view s)) ≡ none
      → Goes
          (λ rc s'. (rc ≡ success) × (view s' ≡ some (or_new (view s))))
          (test_publish_lookup lib max_nslen max_keylen self s)
  unfolding test_publish_lookup
  test_publish_lookup-passes s lacks =
      Goes-bind _ (common-Goes (or_new (view s)) true s refl lacks) λ rc s1 (good, same). rw good (
        Goes-bind _ (common-Goes (or_new (view s)) false s1 (rw same refl) lacks)
          λ rc s2 (good, same). rw good (goes (refl, same)))
