-- ===== src/Published.antt =====
-- unit/server_callbacks.c: the data that clients publish, `publish_fn`, `lookup_fn` and
-- `unpublish_fn`. The list `pmix_test_published_list` is NULL until the first publish. Values are of
-- an abstract type, since the code only copies them; `max_nslen` and `max_keylen` are the constants
-- PMIX_MAX_NSLEN and PMIX_MAX_KEYLEN of the PMIx headers. What a callback function is given is in
-- the result, or `none` where the code makes no call.
pub mod View
pub mod Calls
use pmix_tests.Base.{
  ℕ, suc, ◌+◌, Bool, true, false, ◌||◌, not, Option, none, some, List, [], ◌∷◌, ◌++◌, if◌then◌else◌,
  ◌==◌, length, take,
}
use pmix_tests.Base.Text.{CString, str_eq}
use pmix_tests.Base.Status.{Status, success, err_not_found}

-- A `pmix_info_t`, as far as the callbacks read it.
pub record Info (V : Type 0) : Type 0 where
  pub key : CString
  pub value : V

pub record Proc : Type 0 where
  pub nspace : CString
  pub rank : ℕ

-- `pmix_test_info_t`
pub record TestInfo (V : Type 0) : Type 0 where
  pub info : Info V
  pub namespace_published : CString
  pub rank_published : ℕ

-- `pmix_pdata_t`
pub record Pdata (V : Type 0) : Type 0 where
  pub proc : Proc
  pub key : CString
  pub value : V

-- `pmix_argv_count` and the keys of an argv that may be NULL.
abbrev pub argv_keys : Option (List CString) → List CString
argv_keys none = []
argv_keys (some keys) = keys

-- The loop of `unpublish_fn` over the keys.
unfoldable pub has_key : List CString → CString → Bool
has_key [] k = false
has_key (key ∷ keys) k = str_eq k key || has_key keys k

module _ {V : Type 0} where
  -- The loop over the published items that ends at the first one with the key.
  unfoldable pub find_key : CString → List (TestInfo V) → Option (TestInfo V)
  find_key k [] = none
  find_key k (t ∷ ts) = if str_eq t.info.key k then some t else find_key k ts

  abbrev pub new_info : Proc → Info V → TestInfo V
  new_info proc i = record {
    info = i;
    namespace_published = proc.nspace;
    rank_published = proc.rank;
  }

  -- One round of the loop of `publish_fn`: a key that is there already is left as it is.
  unfoldable pub publish_one : Proc → List (TestInfo V) → Info V → List (TestInfo V)
  publish_one proc l i = elim (find_key i.key l) [ some old ↦ l | none ↦ l ++ new_info proc i ∷ [] ]

  unfoldable pub publish_all : Proc → List (TestInfo V) → List (Info V) → List (TestInfo V)
  publish_all proc l [] = l
  publish_all proc l (i ∷ is) = publish_all proc (publish_one proc l i) is

  -- PMIX_NEW of the list at the first publish.
  abbrev pub or_new : Option (List (TestInfo V)) → List (TestInfo V)
  or_new none = []
  or_new (some l) = l

  -- The new list, the status given to `cbfunc` (`has_cb` tells whether it is not NULL), the result.
  unfoldable pub publish_fn :
      Proc
      → List (Info V)
      → Bool
      → Option (List (TestInfo V))
      → Option (List (TestInfo V)) × Option Status × Status
  publish_fn proc info has_cb published = (
    some (publish_all proc (or_new published) info),
    if has_cb then some success else none,
    success,
  )

  -- One slot of the array `pdata`: filled from the first item with the key, or left as created.
  unfoldable pub lookup_slot : ℕ → ℕ → List (TestInfo V) → CString → Option (Pdata V)
  lookup_slot max_nslen max_keylen l key = elim (find_key key l) [
    | none ↦ none
    | some t ↦ some (record {
      proc = record { nspace = take max_nslen t.namespace_published; rank = t.rank_published };
      key = take max_keylen key;
      value = t.info.value;
    })
  ]

  -- The slots, and the count `ret` of those that were filled.
  unfoldable pub lookup_loop :
      ℕ → ℕ → List (TestInfo V) → List CString → List (Option (Pdata V)) × ℕ
  lookup_loop max_nslen max_keylen l [] = ([], 0)
  lookup_loop max_nslen max_keylen l (key ∷ keys) =
      let (slots, ret) = lookup_loop max_nslen max_keylen l keys in
      let slot = lookup_slot max_nslen max_keylen l key in
      (slot ∷ slots, elim slot [ none ↦ ret | some _ ↦ suc ret ])

  -- The array given to `cbfunc`, and the result.
  unfoldable pub lookup_fn :
      ℕ
      → ℕ
      → Option (List CString)
      → Bool
      → Option (List (TestInfo V))
      → Option (List (Option (Pdata V))) × Status
  lookup_fn max_nslen max_keylen keys has_cb none = (none, err_not_found)
  lookup_fn max_nslen max_keylen keys has_cb (some l) =
      let (slots, ret) = lookup_loop max_nslen max_keylen l (argv_keys keys) in
      if not (ret == length (argv_keys keys))
      then (none, err_not_found)
      else (if has_cb then some slots else none, success)

  -- The safe loop of `unpublish_fn`: with `keys` NULL every item is removed.
  unfoldable pub unpublish_all : Option (List CString) → List (TestInfo V) → List (TestInfo V)
  unpublish_all keys [] = []
  unpublish_all none (t ∷ ts) = unpublish_all none ts
  unpublish_all (some keys) (t ∷ ts) =
      let rest = unpublish_all (some keys) ts in if has_key keys t.info.key then rest else t ∷ rest

  unfoldable pub unpublish_fn :
      Option (List CString)
      → Bool
      → Option (List (TestInfo V))
      → Option (List (TestInfo V)) × Option Status × Status
  unpublish_fn keys has_cb none = (none, none, err_not_found)
  unpublish_fn keys has_cb (some l) =
      (some (unpublish_all keys l), if has_cb then some success else none, success)
