-- ===== src/Tests/ClientTests.antt =====
-- Runs of the client tests of unit/ with small libraries that store, serve or answer their calls.
use pmix_tests.Base.{
  ℕ, zero, suc, ◌≡◌, refl, true, ◌&&◌, not, Option, none, some, List, [], ◌∷◌, ◌++◌, ◌==◌, ◌<◌,
  length, arith, if◌then◌else◌,
}
use pmix_tests.Base.Int.{pos}
use pmix_tests.Base.Text.{CString, codes, str_eq}
use pmix_tests.Base.Status.{Status, success, err_not_found}
use pmix_tests.Published.{Proc, Pdata, publish_fn, unpublish_fn, find_key}
use pmix_tests.Options.Numbers.{print_int, digits, is_digit_code}
use pmix_tests.Options.Ranges.{tokens, skip_spaces}
use pmix_tests.Options.Params.{init_params}
use pmix_tests.Options.Replace.Indexes.{print_keys}
use pmix_tests.Clients.{Value, uint32, string, crashes, Library, Floats, same_key}
use pmix_tests.Clients.Outcomes.{Goes}
use pmix_tests.Clients.Store.{same_proc, IsStore}
use pmix_tests.Clients.Fence.Keys.{same_proc_refl}
use pmix_tests.Clients.JobFence.{Constants, name_of, all_digits, is_whole, get_local_peers}
use pmix_tests.Clients.JobFence.Peers.{get_local_peers-outcome}
use pmix_tests.Clients.Publish.{PublishLibrary, test_publish_lookup}
use pmix_tests.Clients.Publish.Item.{an_info}
use pmix_tests.Clients.Publish.Served.{IsServed, Published, asked, test_publish_lookup-passes}
use pmix_tests.Clients.Replace.{test_replace, replaced_text, last_text}
use pmix_tests.Clients.Replace.Passes.{test_replace-print_keys}
use pmix_tests.Clients.Internal.{test_internal, internal_text}
use pmix_tests.Clients.Internal.Passes.{test_internal-passes}

abbrev pub Data : Type 0
Data = Proc → CString → Option (Value ℕ)

abbrev pub write : Proc → CString → Value ℕ → Data → Data
write c k v s p j = if same_proc p c && str_eq j k then some v else s p j

abbrev answer : Option (Value ℕ) → Data → Status × Option (Value ℕ) × Data
answer none s = (err_not_found, none, s)
answer (some v) s = (success, some v, s)

abbrev answer_nb : Option (Value ℕ) → Data → Status × Option (Status × Value ℕ) × Data
answer_nb none s = (err_not_found, none, s)
answer_nb (some v) s = (success, some (success, v), s)

abbrev stores : Proc → Library Data ℕ
stores c = record {
  put = λ scope k v s. (success, write c k v s);
  store_internal = λ p k v s. (success, write p k v s);
  commit = λ s. (success, s);
  fence = λ collect procs s. (success, s);
  fence_nb = λ procs s. (success, true, s);
  get = λ p k s. answer (s p k) s;
  get_nb = λ p k s. answer_nb (s p k) s;
}

abbrev looks_up : Data → Proc → CString → Option (Value ℕ)
looks_up s = s

abbrev stores-IsStore : IsStore stores looks_up
stores-IsStore = record {
  put_status = λ c scope k v s. refl;
  put_view = λ c scope k v s j. rw (same_proc_refl c) refl;
  internal_status = λ c k v s. refl;
  internal_view = λ c k v s j. rw (same_proc_refl c) refl;
  commit_status = λ c s. refl;
  commit_view = λ c s j. refl;
  fence_status = λ c collect procs s. refl;
  fence_view = λ c collect procs s j. refl;
  get = λ c k s v h. (s, rw h refl, λ j. refl);
}

abbrev pub exact : Floats ℕ
exact = record { of_hundredths = λ n. n; differs = λ a b. not (a == b) }

abbrev pub no_data : Data
no_data p j = none

abbrev pub member : ℕ → Proc
member r = record { nspace = codes "job"; rank = r }

abbrev pub names : Constants
names = record {
  rank_wildcard = 4294967294;
  local_size = codes "lsize";
  local_peers = codes "lpeers";
  job_size = codes "jsize";
  hostname = codes "host";
  nodeid = codes "node";
}

-- One process is announced for the node, but two ranks.
abbrev node_data : Data
node_data p k = if str_eq k (codes "lsize") then some (uint32 1) else some (string (codes "0,1"))

get_local_peers-outcome_example :
    get_local_peers (stores (member 0)) names (codes "job") node_data ≡ (crashes, node_data)
unfolding str_eq tokens is_whole all_digits skip_spaces is_digit_code
get_local_peers-outcome_example =
    get_local_peers-outcome (stores (member 0)) names (codes "job") (codes "0,1") 1 node_data
      node_data node_data refl refl refl

-- A server that serves one client.
abbrev found_or :
    Option (List (Option (Pdata (Value ℕ)))) × Status → Pdata (Value ℕ) → Status × Pdata (Value ℕ)
found_or (some (some t ∷ []), success) d = (success, t)
found_or _ d = (err_not_found, d)

abbrev found_nb : Option (List (Option (Pdata (Value ℕ)))) × Status → List (Pdata (Value ℕ))
found_nb (some (some t ∷ []), success) = t ∷ []
found_nb _ = []

abbrev serves : PublishLibrary (Published ℕ) ℕ
serves = record {
  publish = λ k v s. let r = publish_fn (member 0) (an_info k v ∷ []) true s in (r.2, r.0);
  publish_nb = λ k v s. let r = publish_fn (member 0) (an_info k v ∷ []) true s in (r.2, true, r.0);
  lookup = λ d s. let r = found_or (asked 255 511 d.key s) d in (r.0, r.1, s);
  lookup_nb = λ k s. (success, some (found_nb (asked 255 511 k s)), s);
  unpublish = λ k s. let r = unpublish_fn (some (k ∷ [])) true s in (r.2, r.0);
  unpublish_nb = λ k s. let r = unpublish_fn (some (k ∷ [])) true s in (r.2, true, r.0);
}

abbrev published : Published ℕ → Published ℕ
published s = s

abbrev serves-IsServed : IsServed serves 255 511 (member 0) published
serves-IsServed = record {
  publish = λ k v s. (_, refl, refl);
  publish_nb = λ k v s. (_, refl, refl);
  lookup_found = λ d t s h. (s, rw h refl, refl);
  lookup_missing = λ d s h. (s, rw h refl, refl);
  lookup_nb_found = λ k t s h. (s, rw h refl, refl);
  lookup_nb_missing = λ k s h. (s, rw h refl, refl);
  unpublish = λ k s. (_, refl, refl);
  unpublish_nb = λ k s. (_, refl, refl);
}

test_publish_lookup-passes_example :
    Goes
      (λ rc s'. (rc ≡ success) × (s' ≡ some []))
      (test_publish_lookup serves 255 511 (member 0) none)
unfolding find_key
test_publish_lookup-passes_example = test_publish_lookup-passes serves-IsServed none refl

replaced_fits : (i : ℕ) → i < 3 → length (replaced_text (member 0) (pos i)) < 255
unfolding name_of print_int digits
replaced_fits zero lt = omega arith
replaced_fits (suc zero) lt = omega arith
replaced_fits (suc (suc zero)) lt = omega arith
replaced_fits (suc (suc (suc i))) lt = absurd (omega arith)

test_replace-print_keys_example :
    Goes
      (λ rc s'.
        (rc ≡ success)
        × ((i : ℕ)
            → i < 3
            → s' (member 0) (same_key (pos i))
              ≡ some (string (last_text (member 0) (pos 0 ∷ pos 2 ∷ []) i))))
      (test_replace
        (stores (member 0))
        exact
        255
        (member 0)
        (print_int (pos 3) ++ b':' ∷ print_keys 0 (2 ∷ []))
        no_data)
test_replace-print_keys_example =
    test_replace-print_keys exact stores-IsStore 255 (member 0) 3 0 (2 ∷ []) no_data (omega arith)
      (omega arith, (omega arith, tt)) replaced_fits

internal_fits : (i : ℕ) → i < 2 → length (internal_text (member 0) i) < 255
unfolding name_of print_int digits
internal_fits zero lt = omega arith
internal_fits (suc zero) lt = omega arith
internal_fits (suc (suc i)) lt = absurd (omega arith)

test_internal-passes_example :
    Goes
      (λ rc s'.
        (rc ≡ success)
        × ((i : ℕ)
            → i < 2
            → s' (member 0) (same_key (pos i)) ≡ some (string (internal_text (member 0) i))))
      (test_internal
        (stores (member 0))
        exact
        255
        (member 0)
        (record init_params { test_internal = pos 2 })
        no_data)
test_internal-passes_example =
    test_internal-passes exact stores-IsStore 255 (member 0)
      (record init_params { test_internal = pos 2 }) 2 no_data refl (omega arith) internal_fits
