-- ===== src/Tests/FenceTests.antt =====
-- A run of unit/test_fence.c over a library whose clients see each other's data after a commit and a
-- fence only.
use pmix_tests.Base.{
  ℕ, refl, true, false, ◌&&◌, Option, none, some, List, [], ◌∷◌, arith, if◌then◌else◌,
}
use pmix_tests.Base.Int.{pos}
use pmix_tests.Base.Text.{codes, str_eq}
use pmix_tests.Base.Status.{Status, success, err_not_found}
use pmix_tests.Published.{Proc}
use pmix_tests.Options.Ranges.{rank, Participant}
use pmix_tests.Options.Params.{init_params}
use pmix_tests.Clients.{Value, Library}
use pmix_tests.Clients.Outcomes.{Goes}
use pmix_tests.Clients.Store.{same_proc}
use pmix_tests.Clients.Fence.{real_ranks, fence_round}
use pmix_tests.Clients.Fence.Keys.{same_proc_refl}
use pmix_tests.Clients.Fence.Shared.{IsExchange, is_member, or_else}
use pmix_tests.Clients.Fence.Gets.{AllHold}
use pmix_tests.Clients.Fence.Exchange.{puts_of, fence_round-exchange}
use pmix_tests.Tests.ClientTests.{Data, write, exact, no_data, member}

-- A store in which a commit and a fence are needed: what each process has put, what it has committed,
-- and what each of them sees of the others.
record Shared : Type 0 where
  staged : Data
  committed : Data
  visible : Proc → Data

abbrev staged_of : Shared → Data
staged_of s = s.staged

abbrev committed_of : Shared → Data
committed_of s = s.committed

abbrev visible_of : Shared → Proc → Data
visible_of s = s.visible

abbrev hand_on : Proc → Shared → Data
hand_on c s p j =
    if same_proc p c then or_else (s.staged p j) (s.committed p j) else s.committed p j

abbrev receive : Proc → List Participant → Shared → Proc → Data
receive c procs s q p j =
    if same_proc q c && is_member p procs
    then or_else (s.committed p j) (s.visible q p j)
    else s.visible q p j

abbrev answer_from : Option (Value ℕ) → Shared → Status × Option (Value ℕ) × Shared
answer_from none s = (err_not_found, none, s)
answer_from (some v) s = (success, some v, s)

abbrev answer_nb_from : Option (Value ℕ) → Shared → Status × Option (Status × Value ℕ) × Shared
answer_nb_from none s = (err_not_found, none, s)
answer_nb_from (some v) s = (success, some (success, v), s)

abbrev shares : Proc → Library Shared ℕ
shares c = record {
  put = λ scope k v s. (success, record s { staged = write c k v s.staged });
  store_internal = λ p k v s. (success, s);
  commit = λ s. (success, record s { committed = hand_on c s });
  fence = λ collect procs s. (success, record s { visible = receive c procs s });
  fence_nb = λ procs s. (success, true, record s { visible = receive c procs s });
  get = λ p k s. answer_from (s.visible c p k) s;
  get_nb = λ p k s. answer_nb_from (s.visible c p k) s;
}

abbrev shares-IsExchange : IsExchange shares staged_of committed_of visible_of
shares-IsExchange = record {
  put_status = λ c k v s. refl;
  put_staged = λ c k v s j. rw (same_proc_refl c) refl;
  put_committed = λ c k v s p j. refl;
  put_others = λ c k v s q p j h. refl;
  commit_status = λ c s. refl;
  commit_committed = λ c s p j. refl;
  commit_others = λ c s q p j h. refl;
  fence_status = λ c collect procs s. refl;
  fence_committed = λ c collect procs s p j. refl;
  fence_visible = λ c collect procs s p j. rw (same_proc_refl c) refl;
  fence_nb = λ c procs s. (_, refl, (λ p j. refl), (λ p j. rw (same_proc_refl c) refl));
  get = λ c p k s v h. (s, rw h refl, (λ q j. refl), (λ q j. refl));
  get_nb = λ c p k s v h. (s, rw h refl, (λ q j. refl), (λ q j. refl));
}

abbrev two_members : List Participant
two_members =
    record { nspace = codes "job"; who = rank (pos 0) }
    ∷ record { nspace = codes "job"; who = rank (pos 1) }
    ∷ []

abbrev fresh_store : Shared
fresh_store = record { staged = no_data; committed = no_data; visible = λ p. no_data }

fence_round-exchange_example :
    Goes
      (λ _ s'. AllHold exact false 3 (member 0 ∷ member 1 ∷ []) (visible_of s' (member 0)))
      (fence_round
        (shares (member 0))
        exact
        false
        255
        init_params
        (member 0)
        3
        (record { blocking = true; data_exchange = true; participants = two_members })
        (puts_of shares exact shares-IsExchange false 3 (member 1 ∷ []) fresh_store))
unfolding real_ranks str_eq is_member
fence_round-exchange_example =
    fence_round-exchange shares exact shares-IsExchange false 3 255 init_params (member 0)
      (member 1 ∷ []) (member 0 ∷ member 1 ∷ [])
      (record { blocking = true; data_exchange = true; participants = two_members }) fresh_store
      refl refl refl (omega arith) refl
