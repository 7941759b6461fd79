-- ===== src/Simptest/Lookup.antt =====
-- simple/simptest.c: the data that clients publish, `publish_fn` and `lookup_fn`.
use pmix_tests.Base.{
  ℕ, zero, suc, ◌≡◌, refl, sym, ap, ◌∙◌, Bool, true, Option, none, some, List, [], ◌∷◌, take,
  if◌then◌else◌, Bool-cases, Option-cases, inl, inr,
}
use pmix_tests.Base.Text.{CString, str_eq}
use pmix_tests.Base.Status.{Status, success, err_not_found}
use pmix_tests.Published.{Info, Proc, Pdata}
use pmix_tests.Simptest.{Globals, called}

-- `0 == strncmp(key, pubdata[k].key, PMIX_MAX_KEYLEN)`
abbrev pub same_key : ℕ → CString → CString → Bool
same_key max_keylen a b = str_eq (take max_keylen a) (take max_keylen b)

take-take : (n : ℕ) (s : CString) → take n (take n s) ≡ take n s
take-take zero s = refl
take-take (suc n) [] = refl
take-take (suc n) (c ∷ s) = ap (λ l. c ∷ l) (take-take n s)

module _ {V : Type 0} where
  abbrev publish_one : ℕ → ℕ → Proc → Info V → Pdata V
  publish_one max_nslen max_keylen proc i = record {
    proc = record { nspace = take max_nslen proc.nspace; rank = proc.rank };
    key = take max_keylen i.key;
    value = i.value;
  }

  unfoldable pub published : ℕ → ℕ → Proc → List (Info V) → List (Pdata V)
  published max_nslen max_keylen proc [] = []
  published max_nslen max_keylen proc (i ∷ is) =
      publish_one max_nslen max_keylen proc i ∷ published max_nslen max_keylen proc is

  -- New data replace all data that were there; no data change nothing.
  unfoldable pub publish_fn :
      ℕ → ℕ → Proc → List (Info V) → Bool → Globals V → Globals V × Option Status × Status
  publish_fn max_nslen max_keylen proc [] has_cb s = (s, called has_cb success, success)
  publish_fn max_nslen max_keylen proc (i ∷ is) has_cb s = (
    record s { pubdata = published max_nslen max_keylen proc (i ∷ is) },
    called has_cb success,
    success,
  )

  -- The search of `lookup_fn` for a key.
  unfoldable pub find_pdata : ℕ → CString → List (Pdata V) → Option (Pdata V)
  find_pdata max_keylen key [] = none
  find_pdata max_keylen key (p ∷ ps) =
      if same_key max_keylen key p.key then some p else find_pdata max_keylen key ps

  abbrev append_found : CString → Option (Pdata V) → List CString → List CString
  append_found key none results = results
  append_found key (some p) results = key ∷ results

  -- The first loop: the keys that have published data.
  unfoldable pub found_keys : ℕ → List CString → List (Pdata V) → List CString
  found_keys max_keylen [] ps = []
  found_keys max_keylen (key ∷ keys) ps =
      append_found key (find_pdata max_keylen key ps) (found_keys max_keylen keys ps)

  abbrev filled : ℕ → ℕ → Option (Pdata V) → Option (Pdata V)
  filled max_nslen max_keylen none = none
  filled max_nslen max_keylen (some p) = some (record {
    proc = record { nspace = take max_nslen p.proc.nspace; rank = p.proc.rank };
    key = take max_keylen p.key;
    value = p.value;
  })

  -- The second loop: a slot of the new array for each of them, left as created if nothing is found.
  unfoldable pub fill_slots : ℕ → ℕ → List CString → List (Pdata V) → List (Option (Pdata V))
  fill_slots max_nslen max_keylen [] ps = []
  fill_slots max_nslen max_keylen (key ∷ keys) ps =
      filled max_nslen max_keylen (find_pdata max_keylen key ps)
      ∷ fill_slots max_nslen max_keylen keys ps

  -- `ret` is not assigned after its initialisation.
  unfoldable pub lookup_fn :
      ℕ → ℕ → List CString → Bool → Globals V → Option (Status × List (Option (Pdata V))) × Status
  lookup_fn max_nslen max_keylen keys has_cb s =
      let results = found_keys max_keylen keys s.pubdata in
      (called has_cb (err_not_found, fill_slots max_nslen max_keylen results s.pubdata), success)

  -- The first of the new data with a key, as it is published.
  unfoldable pub offered : ℕ → ℕ → Proc → List (Info V) → CString → Option (Pdata V)
  offered max_nslen max_keylen proc [] key = none
  offered max_nslen max_keylen proc (i ∷ is) key =
      if same_key max_keylen key i.key
      then some (publish_one max_nslen max_keylen proc i)
      else offered max_nslen max_keylen proc is key

  abbrev pub add_found : Option (Pdata V) → List (Option (Pdata V)) → List (Option (Pdata V))
  add_found none more = more
  add_found (some p) more = some p ∷ more

  -- The answers for the keys that are among the new data, in the order of the keys.
  abbrev pub all_offered : ℕ → ℕ → Proc → List (Info V) → List CString → List (Option (Pdata V))
  all_offered max_nslen max_keylen proc is [] = []
  all_offered max_nslen max_keylen proc is (key ∷ keys) =
      add_found (offered max_nslen max_keylen proc is key)
        (all_offered max_nslen max_keylen proc is keys)

  find_pdata-published :
      (max_nslen max_keylen : ℕ) (proc : Proc) (is : List (Info V)) (key : CString)
      → find_pdata max_keylen key (published max_nslen max_keylen proc is)
        ≡ offered max_nslen max_keylen proc is key
  unfolding find_pdata published offered
  find_pdata-published max_nslen max_keylen proc [] key = refl
  find_pdata-published max_nslen max_keylen proc (i ∷ is) key =
      rw (take-take max_keylen i.key, find_pdata-published max_nslen max_keylen proc is key) refl

  filled-offered :
      (max_nslen max_keylen : ℕ) (proc : Proc) (is : List (Info V)) (key : CString)
      → filled max_nslen max_keylen (offered max_nslen max_keylen proc is key)
        ≡ offered max_nslen max_keylen proc is key
  unfolding offered
  filled-offered max_nslen max_keylen proc [] key = refl
  filled-offered max_nslen max_keylen proc (i ∷ is) key =
      elim (Bool-cases (same_key max_keylen key i.key)) [
        | inl e ↦ rw e (rw (take-take max_nslen proc.nspace, take-take max_keylen i.key) refl)
        | inr e ↦ rw e (filled-offered max_nslen max_keylen proc is key)
      ]

  fill_slots-found_keys :
      (max_nslen max_keylen : ℕ) (proc : Proc) (is : List (Info V)) (keys : List CString)
      → let ps = published max_nslen max_keylen proc is in
        fill_slots max_nslen max_keylen (found_keys max_keylen keys ps) ps
        ≡ all_offered max_nslen max_keylen proc is keys
  unfolding fill_slots found_keys
  fill_slots-found_keys max_nslen max_keylen proc is [] = refl
  fill_slots-found_keys max_nslen max_keylen proc is (key ∷ keys) =
      let found = find_pdata-published max_nslen max_keylen proc is key in
      let ih = fill_slots-found_keys max_nslen max_keylen proc is keys in
      elim (Option-cases (offered max_nslen max_keylen proc is key)) [
        | inl e ↦ rw (found, e) ih
        | inr (p, e) ↦
            let same : filled max_nslen max_keylen (some p) ≡ some p =
              ap (filled max_nslen max_keylen) (sym e)
              ∙ filled-offered max_nslen max_keylen proc is key
              ∙ e in
            rw (found, e) (rw (found, e, same, ih) refl)
      ]

  -- A lookup after a publish of some data answers, for the keys that are among these data, the first
  -- of the data with the key, under its publisher, in the order of the keys, and nothing for the
  -- other keys, also where they were published before; the status that it gives with the data is
  -- PMIX_ERR_NOT_FOUND in every case.
  pub lookup_fn-publish_fn :
      (max_nslen max_keylen : ℕ) (proc : Proc) (i : Info V) (is : List (Info V)) (has_cb : Bool)
      (keys : List CString) (s : Globals V)
      → lookup_fn max_nslen max_keylen keys true
          (publish_fn max_nslen max_keylen proc (i ∷ is) has_cb s).0
        ≡ (some (err_not_found, all_offered max_nslen max_keylen proc (i ∷ is) keys), success)
  unfolding lookup_fn publish_fn
  lookup_fn-publish_fn max_nslen max_keylen proc i is has_cb keys s =
      rw (fill_slots-found_keys max_nslen max_keylen proc (i ∷ is) keys) refl
