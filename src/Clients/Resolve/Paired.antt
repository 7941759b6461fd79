-- ===== src/Clients/Resolve/Paired.antt =====
-- The connections that unit/test_resolve_peers.c makes, whatever the PMIx library answers.
use pmix_tests.Base.{
  ℕ, zero, suc, ◌≡◌, refl, Option, none, some, List, [], ◌∷◌, ltb, ◌==◌, length, if◌then◌else◌, Run,
  ok, fault, out_of_fuel, Bool-cases, inl, inr,
}
use pmix_tests.Base.Text.{CString, codes, str_eq}
use pmix_tests.Base.Status.{Status, error, is_success}
use pmix_tests.Published.{Proc}
use pmix_tests.Options.Ranges.{Participant}
use pmix_tests.Options.Params.{Params}
use pmix_tests.Options.Distribution.{get_total_ns_number, get_all_ranks_from_namespace}
use pmix_tests.Clients.Outcomes.{
  onward, returns, undefined, Ended-return_unless, Ended, Ended-bind, Ended-returned,
}
use pmix_tests.Clients.Connect.{ConnectLibrary}
use pmix_tests.Clients.Resolve.{
  ResolveCall, pair_of, nspace_of, resolve_nspace, disconnect_pair, resolve_other, resolve_round,
  resolve_loop, test_resolve_peers, some_procs, some_ranks,
}

-- A Connect that succeeded, or a Disconnect, and its participants.
pub data Call : Type 0 where
  connected : List Participant → Call
  disconnected : List Participant → Call

abbrev log_connect :
    {L : Type 0} → List Participant → List Call → Status × L → Status × (L × List Call)
log_connect procs calls (rc, l) =
    (rc, (l, if is_success rc then connected procs ∷ calls else calls))

abbrev log_disconnect :
    {L : Type 0} → List Participant → List Call → Status × L → Status × (L × List Call)
log_disconnect procs calls (rc, l) = (rc, (l, disconnected procs ∷ calls))

-- The library with a log of its blocking calls, the last one first.
abbrev pub logged : {L : Type 0} → ConnectLibrary L → ConnectLibrary (L × List Call)
logged lib = record {
  connect = λ procs (l, calls). log_connect procs calls (lib.connect procs l);
  disconnect = λ procs (l, calls). log_disconnect procs calls (lib.disconnect procs l);
  connect_nb = λ procs (l, calls). let (rc, a, l') = lib.connect_nb procs l in (rc, a, (l', calls));
  disconnect_nb =
      λ procs (l, calls). let (rc, a, l') = lib.disconnect_nb procs l in (rc, a, (l', calls));
}

abbrev pub logged_resolve : {L : Type 0} → ResolveCall L → ResolveCall (L × List Call)
logged_resolve resolve node nspace (l, calls) =
    let (rc, a, l') = resolve node nspace l in (rc, a, (l', calls))

-- Each Connect is followed by the Disconnect of the same participants.
pub data IsPaired : List Call → Type 0 where
  nil : IsPaired []
  pair :
      {calls : List Call} (procs : List Participant)
      → IsPaired calls
      → IsPaired (disconnected procs ∷ connected procs ∷ calls)

module _ {L : Type 0} (lib : ConnectLibrary L) (resolve : ResolveCall L) (max_nslen : ℕ)
    (params : Params) (my_nspace : CString) where
  abbrev LogIs : List Call → L × List Call → Type 0
  LogIs calls (l, c) = c ≡ calls

  abbrev LogPaired : L × List Call → Type 0
  LogPaired (l, c) = IsPaired c

  some_procs-keeps :
      (procs : Option (List Proc)) (s : L × List Call) (calls : List Call)
      → LogIs calls s
      → Ended (LogIs calls) (some_procs procs s)
  some_procs-keeps none s calls h = returns h
  some_procs-keeps (some []) s calls h = returns h
  some_procs-keeps (some (p ∷ ps)) s calls h = onward h

  some_ranks-keeps :
      (ranks : Run (Option (List Proc) × Status)) (s : L × List Call) (calls : List Call)
      → LogIs calls s
      → Ended (LogIs calls) (some_ranks ranks s)
  some_ranks-keeps (ok (none, rc)) s calls h = returns h
  some_ranks-keeps (ok (some ps, rc)) s calls h = elim (Bool-cases (is_success rc)) [
    | inl e ↦ rw e (onward h)
    | inr e ↦ rw e (returns h)
  ]
  some_ranks-keeps fault s calls h = undefined
  some_ranks-keeps out_of_fuel s calls h = undefined

  resolve-keeps :
      (nspace : CString) (l : L) (calls : List Call)
      → Ended
          (LogIs calls)
          (resolve_nspace (logged_resolve resolve) max_nslen params nspace (l, calls))
  unfolding resolve_nspace
  resolve-keeps nspace l calls =
      let (rc, procs, l1) = resolve (codes "node1") nspace l in
      Ended-bind _ (Ended-return_unless (is_success rc) rc (l1, calls) refl) (λ l h. h)
        λ _ s1 h1.
          Ended-bind _ (some_procs-keeps procs s1 calls h1) (λ l h. h)
            λ ps s2 h2.
              Ended-bind _
                (some_ranks-keeps (get_all_ranks_from_namespace max_nslen params nspace) s2 calls
                  h2)
                (λ l h. h)
                λ ranks s3 h3.
                  Ended-bind _ (Ended-return_unless (length ps == length ranks) error s3 h3)
                    (λ l h. h) λ _ s4 h4. onward h4

  disconnect-IsPaired :
      (procs : List Participant) (rc : Status) (l : L) (now calls : List Call)
      → now ≡ connected procs ∷ calls
      → IsPaired calls
      → Ended LogPaired (
          disconnect_pair
            (logged lib)
            (logged_resolve resolve)
            max_nslen
            params
            my_nspace
            procs
            rc
            (l, now))
  unfolding disconnect_pair
  disconnect-IsPaired procs rc l now calls e h =
      let (rc2, l2) = lib.disconnect procs l in
      let paired : IsPaired (disconnected procs ∷ now) = rw e (pair procs h) in
      Ended-bind _ (Ended-return_unless (is_success rc) rc (l2, disconnected procs ∷ now) paired)
        (λ l p. p) λ _ s3 p. Ended-return_unless (is_success rc2) error s3 p

  other-IsPaired :
      (nspace : CString) (l : L) (calls : List Call)
      → IsPaired calls
      → Ended LogPaired (
          resolve_other
            (logged lib)
            (logged_resolve resolve)
            max_nslen
            params
            my_nspace
            nspace
            (l, calls))
  unfolding resolve_other
  other-IsPaired nspace l calls h =
      let procs = pair_of nspace my_nspace in
      let (rc, l1) = lib.connect procs l in
      elim (Bool-cases (is_success rc)) [
        | inl e ↦ rw e (
            Ended-returned _ (resolve_nspace (logged_resolve resolve) max_nslen params nspace)
              (l1, connected procs ∷ calls) (resolve-keeps nspace l1 (connected procs ∷ calls))
              λ rc2 s2 k. disconnect-IsPaired procs rc2 s2.0 s2.1 calls k h)
        | inr e ↦ rw e (returns h)
      ]

  round-IsPaired :
      (nspace : CString) (s : L × List Call)
      → LogPaired s
      → Ended LogPaired
          (resolve_round (logged lib) (logged_resolve resolve) max_nslen params my_nspace nspace s)
  unfolding resolve_round
  round-IsPaired nspace (l, calls) h = elim (Bool-cases (str_eq my_nspace nspace)) [
    | inl e ↦ rw e (onward h)
    | inr e ↦ rw e (other-IsPaired nspace l calls h)
  ]

  loop-IsPaired :
      (k n : ℕ) (s : L × List Call)
      → LogPaired s
      → Ended LogPaired
          (resolve_loop (logged lib) (logged_resolve resolve) max_nslen params my_nspace k n s)
  unfolding resolve_loop
  loop-IsPaired zero n s h = onward h
  loop-IsPaired (suc k) n s h =
      Ended-bind _ (round-IsPaired (nspace_of max_nslen n) s h) (λ l p. p)
        λ _ s1 h1. loop-IsPaired k (suc n) s1 h1

  -- Whatever the PMIx library answers: where the test returns or goes on, with an error or without,
  -- each Connect that succeeded has been followed by exactly one Disconnect, of the same two
  -- namespaces and before the next Connect.
  pub test_resolve_peers-IsPaired :
      (l : L)
      → Ended LogPaired (
          test_resolve_peers
            (logged lib)
            (logged_resolve resolve)
            max_nslen
            params
            my_nspace
            (l, []))
  unfolding test_resolve_peers
  test_resolve_peers-IsPaired l =
      Ended-returned _ (resolve_nspace (logged_resolve resolve) max_nslen params my_nspace) (l, [])
        (resolve-keeps my_nspace l [])
        λ rc s1 e.
          let h : LogPaired s1 = rw e nil in
          Ended-bind _ (Ended-return_unless (is_success rc) error s1 h) (λ l p. p)
            λ _ s2 h2.
              Ended-bind _ (Ended-return_unless (ltb 0 (get_total_ns_number params)) error s2 h2)
                (λ l p. p)
                λ _ s3 h3.
                  Ended-bind _ (loop-IsPaired (get_total_ns_number params) 0 s3 h3) (λ l p. p)
                    λ _ s4 h4. onward h4
