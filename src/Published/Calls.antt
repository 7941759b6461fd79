-- ===== src/Published/Calls.antt =====
-- The callbacks `publish_fn`, `lookup_fn` and `unpublish_fn` of unit/server_callbacks.c: what their
-- callers are told, and what a lookup sees after a publish or an unpublish.
use pmix_tests.Base.{
  ℕ, ◌≤◌, ◌≡◌, refl, ap, ◌≢◌, Bool, true, false, none, some, List, [], ◌∷◌, map, arith,
  if◌then◌else◌, ◌==◌, length, Bool-cases, Option-cases, inl, inr,
}
use pmix_tests.Base.Text.{CString}
use pmix_tests.Base.Status.{success, err_not_found}
use pmix_tests.Published.{
  Info, Proc, TestInfo, find_key, publish_fn, lookup_slot, lookup_loop, lookup_fn, has_key,
  unpublish_fn,
}
use pmix_tests.Published.View.{find_key-publish_all, find_key-unpublish_all}

abbrev pub IsPublished : {V : Type 0} → List (TestInfo V) → CString → Type 0
IsPublished l k = find_key k l ≢ none

-- Does every key have an entry?
abbrev pub all_published : {V : Type 0} → List (TestInfo V) → List CString → Bool
all_published l [] = true
all_published l (k ∷ keys) = elim (find_key k l) [ none ↦ false | some _ ↦ all_published l keys ]

module _ {V : Type 0} (nl kl : ℕ) where
  slots-map :
      (l : List (TestInfo V)) (keys : List CString)
      → (lookup_loop nl kl l keys).0 ≡ map (lookup_slot nl kl l) keys
  unfolding lookup_loop
  slots-map l [] = refl
  slots-map l (k ∷ keys) = ap (λ ss. lookup_slot nl kl l k ∷ ss) (slots-map l keys)

  ret-le :
      (l : List (TestInfo V)) (keys : List CString) → (lookup_loop nl kl l keys).1 ≤ length keys
  unfolding lookup_loop
  ret-le l [] = omega arith
  ret-le l (k ∷ keys) = ground (arith, ret-le l keys)

  ret-full :
      (l : List (TestInfo V)) (keys : List CString)
      → (lookup_loop nl kl l keys).1 ≡ length keys
      → all_published l keys ≡ true
  unfolding lookup_loop lookup_slot
  ret-full l [] e = refl
  ret-full l (k ∷ keys) e = elim (Option-cases (find_key k l)) [
    | inl m ↦ ground (arith, ret-le l keys)
    | inr (t, m) ↦ ground (arith, ret-full l keys (ground arith))
  ]

  full-ret :
      (l : List (TestInfo V)) (keys : List CString)
      → all_published l keys ≡ true
      → (lookup_loop nl kl l keys).1 ≡ length keys
  unfolding lookup_loop lookup_slot
  full-ret l [] h = refl
  full-ret l (k ∷ keys) h = elim (Option-cases (find_key k l)) [
    | inl e ↦ ground arith
    | inr (t, e) ↦ ground (arith, full-ret l keys (ground arith))
  ]

  -- A lookup succeeds exactly if every key has an entry. The callback, if there is one, is then
  -- given one slot for each key, in the order of the keys; otherwise it is not called.
  pub lookup_fn-exact :
      (keys : List CString) (has_cb : Bool) (l : List (TestInfo V))
      → lookup_fn nl kl (some keys) has_cb (some l) ≡ (
          if all_published l keys
          then (if has_cb then some (map (lookup_slot nl kl l) keys) else none, success)
          else (none, err_not_found))
  unfolding lookup_fn
  lookup_fn-exact keys has_cb l = elim (Bool-cases (all_published l keys)) [
    | inl e ↦ ground (arith, full-ret l keys e, slots-map l keys)
    | inr e ↦ elim (Bool-cases ((lookup_loop nl kl l keys).1 == length keys)) [
      | inl f ↦ ground (arith, ret-full l keys (ground arith))
      | inr f ↦ ground arith
    ]
  ]

  -- Publishing under a key that has an entry leaves every lookup of the key as it was.
  pub publish_keeps :
      (proc : Proc) (is : List (Info V)) (has_cb : Bool) (l : List (TestInfo V)) (k : CString)
      → IsPublished l k
      → lookup_fn nl kl (some (k ∷ [])) true (publish_fn proc is has_cb (some l)).0
        ≡ lookup_fn nl kl (some (k ∷ [])) true (some l)
  unfolding publish_fn lookup_fn lookup_loop lookup_slot
  publish_keeps proc is has_cb l k h = elim (Option-cases (find_key k l)) [
    | inl e ↦ absurd (h e)
    | inr (t, e) ↦ ground (arith, find_key-publish_all proc k l is)
  ]

  -- After an unpublish a key that was listed is not found, and a key that was not listed is looked
  -- up as before.
  pub lookup-unpublish :
      (keys : List CString) (has_cb : Bool) (l : List (TestInfo V)) (k : CString)
      → lookup_fn nl kl (some (k ∷ [])) true (unpublish_fn (some keys) has_cb (some l)).0 ≡ (
          if has_key keys k
          then (none, err_not_found)
          else lookup_fn nl kl (some (k ∷ [])) true (some l))
  unfolding unpublish_fn lookup_fn lookup_loop lookup_slot
  lookup-unpublish keys has_cb l k = ground (arith, (find_key-unpublish_all keys k l).0)
