-- ===== src/Published/View.antt =====
-- The published data of unit/server_callbacks.c as a map from keys to what was first published.
use pmix_tests.Base.{
  ◌≡◌, refl, Option, none, some, List, [], ◌∷◌, ◌++◌, arith, if◌then◌else◌, Bool-cases,
  Option-cases, inl, inr,
}
use pmix_tests.Base.Text.{CString, str_eq, str_eq_iff}
use pmix_tests.Published.{
  Info, Proc, TestInfo, find_key, new_info, publish_one, publish_all, has_key, unpublish_all,
}

abbrev pub or_else : {V : Type 0} → Option V → Option V → Option V
or_else none b = b
or_else (some a) b = some a

module _ {V : Type 0} where
  find_key-append :
      (k : CString) (l m : List (TestInfo V))
      → find_key k (l ++ m) ≡ or_else (find_key k l) (find_key k m)
  unfolding find_key
  find_key-append k [] m = refl
  find_key-append k (t ∷ ts) m = ground (arith, find_key-append k ts m)

  -- The first of the data with a key, as its publisher enters it.
  abbrev pub first_new : Proc → CString → List (Info V) → Option (TestInfo V)
  first_new proc k [] = none
  first_new proc k (i ∷ is) = if str_eq i.key k then some (new_info proc i) else first_new proc k is

  find_key-publish_one :
      (proc : Proc) (k : CString) (l : List (TestInfo V)) (i : Info V)
      → find_key k (publish_one proc l i)
        ≡ or_else (find_key k l) (if str_eq i.key k then some (new_info proc i) else none)
  unfolding publish_one find_key
  find_key-publish_one proc k l i =
      ground (arith, find_key-append k l (new_info proc i ∷ []), str_eq_iff i.key k)

  -- After `publish_fn` a key has the entry that it had before, or else the first of the new data
  -- with this key, entered under its publisher.
  pub find_key-publish_all :
      (proc : Proc) (k : CString) (l : List (TestInfo V)) (is : List (Info V))
      → find_key k (publish_all proc l is) ≡ or_else (find_key k l) (first_new proc k is)
  unfolding publish_all
  find_key-publish_all proc k l [] = ground arith
  find_key-publish_all proc k l (i ∷ is) = ground (
    arith,
    find_key-publish_all proc k (publish_one proc l i) is,
    find_key-publish_one proc k l i,
  )

  -- After `unpublish_fn` the listed keys have no entry, all keys when none is listed, and every
  -- other key has the entry that it had.
  pub find_key-unpublish_all :
      (keys : List CString) (k : CString) (l : List (TestInfo V))
      → (find_key k (unpublish_all (some keys) l) ≡ (if has_key keys k then none else find_key k l))
        × (find_key k (unpublish_all none l) ≡ none)
  unfolding find_key unpublish_all
  find_key-unpublish_all keys k [] = (ground arith, refl)
  find_key-unpublish_all keys k (t ∷ ts) = (
    ground (arith, (find_key-unpublish_all keys k ts).0, str_eq_iff t.info.key k),
    (find_key-unpublish_all keys k ts).1,
  )

  -- No key twice.
  abbrev pub Unique : List (TestInfo V) → Type 0
  Unique [] = Unit
  Unique (t ∷ ts) = (find_key t.info.key ts ≡ none) × Unique ts

  Unique-snoc :
      (l : List (TestInfo V)) (t : TestInfo V)
      → Unique l
      → find_key t.info.key l ≡ none
      → Unique (l ++ t ∷ [])
  unfolding find_key
  Unique-snoc [] t u e = (refl, tt)
  Unique-snoc (s ∷ ss) t u e = (
    ground (
      arith,
      find_key-append s.info.key ss (t ∷ []),
      str_eq_iff s.info.key t.info.key,
      str_eq_iff t.info.key s.info.key,
    ),
    Unique-snoc ss t u.1 (ground arith),
  )

  publish_one-Unique :
      (proc : Proc) (l : List (TestInfo V)) (i : Info V) → Unique l → Unique (publish_one proc l i)
  unfolding publish_one
  publish_one-Unique proc l i u = elim (Option-cases (find_key i.key l)) [
    | inl e ↦ rw (e, publish_one) (Unique-snoc l (new_info proc i) u e)
    | inr (t, e) ↦ rw (e, publish_one) u
  ]

  -- Publishing keeps the keys of the list distinct.
  pub publish_all-Unique :
      (proc : Proc) (l : List (TestInfo V)) (is : List (Info V))
      → Unique l
      → Unique (publish_all proc l is)
  unfolding publish_all
  publish_all-Unique proc l [] u = u
  publish_all-Unique proc l (i ∷ is) u =
      publish_all-Unique proc (publish_one proc l i) is (publish_one-Unique proc l i u)

  -- So does unpublishing.
  pub unpublish_all-Unique :
      (keys : List CString) (l : List (TestInfo V))
      → Unique l
      → Unique (unpublish_all (some keys) l)
  unfolding unpublish_all
  unpublish_all-Unique keys [] u = tt
  unpublish_all-Unique keys (t ∷ ts) u =
      let rest = unpublish_all-Unique keys ts u.1 in
      elim (Bool-cases (has_key keys t.info.key)) [
        | inl e ↦ rw e rest
        | inr e ↦ rw e (ground (arith, (find_key-unpublish_all keys t.info.key ts).0, u.0), rest)
      ]
