-- ===== src/Clients/Fence/Exchange.antt =====
-- What the clients of unit/test_fence.c exchange in a fence, over a library that gives a client with
-- its fence what the participants have committed.
use pmix_tests.Base.{
  ℕ, ◌+◌, ◌<◌, ◌^◌, ◌≡◌, refl, sym, ◌∙◌, inl, inr, Bool, true, false, ◌&&◌, ◌||◌, Option, some,
  List, [], ◌∷◌, arith, Bool-cases, and_parts, ok, subst, if◌then◌else◌,
}
use pmix_tests.Base.Text.{CString}
use pmix_tests.Base.Status.{success}
use pmix_tests.Published.{Proc}
use pmix_tests.Options.Ranges.{Participant, FenceDesc}
use pmix_tests.Options.Params.{Params}
use pmix_tests.Clients.{Value, Step, Library, Floats, set_key, fence, fence_nonblocking}
use pmix_tests.Clients.Outcomes.{Goes, goes, Goes-bind}
use pmix_tests.Clients.Store.{same_proc}
use pmix_tests.Clients.Fence.{real_ranks, put_commit, fence_round}
use pmix_tests.Clients.Fence.Shared.{IsExchange, is_member, or_else}
use pmix_tests.Clients.Fence.Puts.{Commits, put_commit-Commits}
use pmix_tests.Clients.Fence.Gets.{proc_eq, KeepsFloat, Holds, AllHold, AllHold-same, get_all-Goes}

Goes-state : {A L : Type 0} {P : L → Type 0} {run : Step A × L} → Goes (λ _ l. P l) run → P run.1
Goes-state (goes p) = p

abbrev pub is_listed : Proc → List Proc → Bool
is_listed p [] = false
is_listed p (c ∷ cs) = same_proc p c || is_listed p cs

abbrev pub all_listed : List Proc → List Proc → Bool
all_listed [] cs = true
all_listed (p ∷ ps) cs = is_listed p cs && all_listed ps cs

abbrev pub all_members : List Proc → List Participant → Bool
all_members [] ms = true
all_members (p ∷ ps) ms = is_member p ms && all_members ps ms

module _ {L F : Type 0} (lib : Proc → Library L F)
    {staged committed : L → Proc → CString → Option (Value F)}
    {visible : L → Proc → Proc → CString → Option (Value F)} (fl : Floats F)
    (store : IsExchange lib staged committed visible) (use_same_keys : Bool) (f : ℕ) where
  -- The state when the clients have put and committed their data, one after the other.
  unfoldable pub puts_of : List Proc → L → L
  puts_of [] s = s
  puts_of (c ∷ cs) s = puts_of cs (put_commit (lib c) fl use_same_keys f c s).1

  Sent : Proc → L → Type 0
  Sent p s = Holds fl use_same_keys f p (committed s p)

  Commits-Sent :
      (c p : Proc) (s s' : L)
      → Commits fl store use_same_keys f c s s'
      → same_proc p c ≡ true
      → Sent p s'
  unfolding Sent
  Commits-Sent c p s s' w e =
      subst (λ q. Holds fl use_same_keys f q (committed s' q)) (sym (proc_eq p c e)) w.0

  Commits-keeps :
      (c p : Proc) (s s' : L) → Commits fl store use_same_keys f c s s' → Sent p s → Sent p s'
  unfolding Sent
  Commits-keeps c p s s' w k = elim (Bool-cases (same_proc p c)) [
    | inl e ↦ Commits-Sent c p s s' w e
    | inr e ↦ λ i lt. w.1 p (set_key use_same_keys f i) e ∙ k i lt
  ]

  puts_keep : (cs : List Proc) (p : Proc) (s : L) → Sent p s → Sent p (puts_of cs s)
  unfolding puts_of
  puts_keep [] p s k = k
  puts_keep (c ∷ cs) p s k =
      puts_keep cs p (put_commit (lib c) fl use_same_keys f c s).1
        (Commits-keeps c p s _ (Goes-state (put_commit-Commits fl store use_same_keys f c s)) k)

  puts_of-Sent : (cs : List Proc) (p : Proc) (s : L) → is_listed p cs ≡ true → Sent p (puts_of cs s)
  unfolding puts_of
  puts_of-Sent [] p s h = absurd (ground arith)
  puts_of-Sent (c ∷ cs) p s h =
      let s1 = (put_commit (lib c) fl use_same_keys f c s).1 in
      let w = Goes-state (put_commit-Commits fl store use_same_keys f c s) in
      elim (Bool-cases (same_proc p c)) [
        | inl e ↦ puts_keep cs p s1 (Commits-Sent c p s s1 w e)
        | inr e ↦ puts_of-Sent cs p s1 (rw e at h)
      ]

  all_sent :
      (c : Proc) (others ps : List Proc) (s s' : L)
      → all_listed ps (c ∷ others) ≡ true
      → Commits fl store use_same_keys f c (puts_of others s) s'
      → AllHold fl use_same_keys f ps (committed s')
  unfolding Sent
  all_sent c others [] s s' h w = tt
  all_sent c others (p ∷ ps) s s' h w =
      let (here, more) = and_parts (is_listed p (c ∷ others)) (all_listed ps (c ∷ others)) h in
      (
        elim (Bool-cases (same_proc p c)) [
          | inl e ↦ Commits-Sent c p (puts_of others s) s' w e
          | inr e ↦
              Commits-keeps c p (puts_of others s) s' w (puts_of-Sent others p s (rw e at here))
        ],
        all_sent c others ps s s' more w,
      )

  -- What a fence of `c` over the participants does.
  abbrev Fences : Proc → List Participant → L → L → Type 0
  Fences c procs s s' =
      ((p : Proc) (j : CString) → committed s' p j ≡ committed s p j)
      × ((p : Proc) (j : CString)
          → visible s' c p j ≡ (
              if is_member p procs
              then or_else (committed s p j) (visible s c p j)
              else visible s c p j))

  fence-Goes :
      (c : Proc) (blocking collect : Bool) (procs : List Participant) (s : L)
      → Goes
          (λ rc s'. (rc ≡ success) × Fences c procs s s')
          (fence (lib c) blocking collect procs s)
  unfolding fence_nonblocking
  fence-Goes c true collect procs s = goes (
    store.fence_status c collect procs s,
    (store.fence_committed c collect procs s, store.fence_visible c collect procs s),
  )
  fence-Goes c false collect procs s =
      let (s', e, same, seen) = store.fence_nb c procs s in rw e (goes (refl, (same, seen)))

  -- A fence makes visible what its participants have committed.
  Fences-visible :
      (c : Proc) (procs : List Participant) (ps : List Proc) (s s' : L)
      → Fences c procs s s'
      → all_members ps procs ≡ true
      → AllHold fl use_same_keys f ps (committed s)
      → AllHold fl use_same_keys f ps (visible s' c)
  unfolding or_else
  Fences-visible c procs [] s s' w m h = tt
  Fences-visible c procs (p ∷ ps) s s' w m (k, h) =
      let (here, more) = and_parts (is_member p procs) (all_members ps procs) m in
      (
        (λ i lt. w.1 p (set_key use_same_keys f i) ∙ rw (here, k i lt) refl),
        Fences-visible c procs ps s s' w more h,
      )

  -- A client takes part in fence `f` of test_fence after `others` have put and committed their data. If
  -- the participants of the fence are the processes `ps`, and each of these is the client or one of the
  -- others, the client goes on without an error, and a Get of it answers the data of all of them. Of the
  -- library it is assumed that its calls succeed, that a commit hands on what its caller has put, and
  -- that a fence lets its caller see what the participants have committed; the fence has a number below
  -- 65521, and the comparison of `float` keeps the value that the fence puts.
  pub fence_round-exchange :
      (max_nslen : ℕ) (params : Params) (c : Proc) (others ps : List Proc) (desc : FenceDesc)
      (s : L)
      → real_ranks max_nslen params desc.participants [] [] ≡ ok (some ps)
      → all_members ps desc.participants ≡ true
      → all_listed ps (c ∷ others) ≡ true
      → f + 15 < 2 ^ 16
      → KeepsFloat fl f
      → Goes
          (λ _ s'. AllHold fl use_same_keys f ps (visible s' c))
          (fence_round (lib c) fl use_same_keys max_nslen params c f desc (puts_of others s))
  unfolding fence_round
  fence_round-exchange max_nslen params c others ps desc s resolved members listed small keeps =
      Goes-bind _ (put_commit-Commits fl store use_same_keys f c (puts_of others s)) λ _ s1 w.
        Goes-bind _ (fence-Goes c desc.blocking desc.data_exchange desc.participants s1)
          λ rc s2 (good, fenced).
            rw (good, resolved)
              (let sent = all_sent c others ps s s1 listed w in
                let seen = Fences-visible c desc.participants ps s1 s2 fenced members sent in
                Goes-bind _ (get_all-Goes fl store use_same_keys c f ps s2 small keeps seen)
                  λ _ s3 same.
                    Goes-bind _ (fence-Goes c true false desc.participants s3) λ _ s4 (_, last).
                      goes (
                        Fences-visible c desc.participants ps s3 s4 last members (
                          AllHold-same fl use_same_keys f ps (committed s1) (committed s3)
                            (λ q j. same.1 q j ∙ fenced.0 q j) sent)))
