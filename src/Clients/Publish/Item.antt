-- ===== src/Clients/Publish/Item.antt =====
-- The one item of unit/test_publish.c in the published data of unit/server_callbacks.c, and what
-- `lookup_cb` makes of it.
use pmix_tests.Base.{
  ℕ, zero, suc, ◌≤◌, ◌≡◌, refl, true, Option, none, some, List, [], ◌∷◌, ◌++◌, take, take_of_le,
  length, arith,
}
use pmix_tests.Base.Text.{CString, str_eq_refl, str_eq_iff}
use pmix_tests.Base.Status.{success, err_not_found}
use pmix_tests.Published.{
  Info, Proc, TestInfo, Pdata, find_key, new_info, or_new, publish_one, publish_all, publish_fn,
  lookup_slot, lookup_loop, lookup_fn, has_key, unpublish_all, unpublish_fn,
}
use pmix_tests.Clients.{Value, string}
use pmix_tests.Clients.Fence.{is_prefix}
use pmix_tests.Clients.Publish.{key_of, data_of, transfer, lookup_cb, only, new_pdata, compare}

abbrev pub an_info : {F : Type 0} → CString → Value F → Info (Value F)
an_info key v = record { key = key; value = v }

pub is_prefix_refl : (a : CString) → is_prefix a a ≡ true
unfolding is_prefix
is_prefix_refl [] = refl
is_prefix_refl (x ∷ xs) = ground (arith, is_prefix_refl xs)

pub length-take_le : {A : Type 0} (n : ℕ) (xs : List A) → length (take n xs) ≤ n
length-take_le zero xs = omega arith
length-take_le (suc n) [] = omega arith
length-take_le (suc n) (x ∷ xs) = ground (arith, length-take_le n xs)

pub compare_own :
    (F : Type 0) (text : CString) → compare {F = F} text (string text) success ≡ success
unfolding compare
compare_own F text = rw (is_prefix_refl text) refl

-- The list with one more item, and what taking its key out of it leaves.
pub unpublish-publish :
    {V : Type 0} (p : Proc) (i : Info V) (l : List (TestInfo V))
    → find_key i.key l ≡ none
    → unpublish_all (some (i.key ∷ [])) (l ++ new_info p i ∷ []) ≡ l
unfolding unpublish_all has_key find_key
unpublish-publish p i [] e = ground (arith, str_eq_refl i.key)
unpublish-publish p i (t ∷ ts) e =
    ground (arith, unpublish-publish p i ts, str_eq_iff t.info.key i.key)

-- What the client publishes.
abbrev pub item : {F : Type 0} → ℕ → Proc → Info (Value F)
item max_keylen self = an_info (key_of max_keylen self) (string (data_of self))

pub publish_one_new :
    {V : Type 0} (p : Proc) (i : Info V) (l : List (TestInfo V))
    → find_key i.key l ≡ none
    → publish_one p l i ≡ l ++ new_info p i ∷ []
unfolding publish_one
publish_one_new p i l lacks = ground (arith, lacks)

pub publish_fn_new :
    {V : Type 0} (p : Proc) (i : Info V) (l : List (TestInfo V))
    (before : Option (List (TestInfo V)))
    → or_new before ≡ l
    → find_key i.key l ≡ none
    → publish_fn p (i ∷ []) true before ≡ (some (l ++ new_info p i ∷ []), some success, success)
unfolding publish_fn publish_all
publish_fn_new p i l before e lacks = rw (e, publish_one_new p i l lacks) refl

-- The slot that a lookup of the new item gives.
abbrev pub slot_of : {V : Type 0} → ℕ → Proc → Info V → Pdata V
slot_of max_nslen p i = record {
  proc = record { nspace = take max_nslen p.nspace; rank = p.rank };
  key = i.key;
  value = i.value;
}

pub find_key_new :
    {V : Type 0} (p : Proc) (i : Info V) (l : List (TestInfo V))
    → find_key i.key l ≡ none
    → find_key i.key (l ++ new_info p i ∷ []) ≡ some (new_info p i)
unfolding find_key
find_key_new p i [] lacks = ground (arith, str_eq_refl i.key)
find_key_new p i (t ∷ ts) lacks = ground (arith, find_key_new p i ts)

pub lookup_fn_new :
    {V : Type 0} (max_nslen max_keylen : ℕ) (p : Proc) (i : Info V) (l : List (TestInfo V))
    → find_key i.key l ≡ none
    → length i.key ≤ max_keylen
    → lookup_fn max_nslen max_keylen (some (i.key ∷ [])) true (some (l ++ new_info p i ∷ []))
      ≡ (some (some (slot_of max_nslen p i) ∷ []), success)
unfolding lookup_fn lookup_loop lookup_slot
lookup_fn_new max_nslen max_keylen p i l lacks fits =
    ground (arith, find_key_new p i l lacks, take_of_le max_keylen i.key fits)

pub lookup_fn_missing :
    {V : Type 0} (max_nslen max_keylen : ℕ) (key : CString) (before : Option (List (TestInfo V)))
    → find_key key (or_new before) ≡ none
    → lookup_fn max_nslen max_keylen (some (key ∷ [])) true before ≡ (none, err_not_found)
unfolding lookup_fn lookup_loop lookup_slot
lookup_fn_missing max_nslen max_keylen key none lacks = refl
lookup_fn_missing max_nslen max_keylen key (some l) lacks = ground (arith, lacks)

-- What `lookup_cb` puts into the client's item.
pub transfer_only :
    {F : Type 0} (max_nslen : ℕ) (p : Proc) (i : Info (Value F))
    → only (lookup_cb max_nslen (slot_of max_nslen p i ∷ []) (new_pdata i.key ∷ [])) ≡ i.value
unfolding lookup_cb transfer
transfer_only max_nslen p i = ground (arith, str_eq_refl i.key)

pub unpublish_fn_new :
    {V : Type 0} (p : Proc) (i : Info V) (l : List (TestInfo V))
    (before : Option (List (TestInfo V)))
    → before ≡ some (l ++ new_info p i ∷ [])
    → find_key i.key l ≡ none
    → unpublish_fn (some (i.key ∷ [])) true before ≡ (some l, some success, success)
unfolding unpublish_fn
unpublish_fn_new p i l before e lacks = rw (e, unpublish-publish p i l lacks) refl
