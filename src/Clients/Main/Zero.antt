-- ===== src/Clients/Main/Zero.antt =====
-- What is known when a client of unit/pmix_client.c exits with 0, whatever the PMIx library answers.
use pmix_tests.Base.{
  ℕ, zero, suc, subst, ◌≡◌, ◌≢◌, refl, ap, ◌∙◌, Bool, true, false, ◌&&◌, not, Option, none, some,
  List, [], ◌∷◌, ◌==◌, ==_iff, arith,
}
use pmix_tests.Base.Int.{pos, eqb, eqb_iff}
use pmix_tests.Base.Text.{CString}
use pmix_tests.Base.Status.{Status, success, is_success}
use pmix_tests.Published.{Proc}
use pmix_tests.Options.Params.{Params}
use pmix_tests.Clients.{Value, Step, next, leave, hangs, crashes, Body, resume, done, returned}
use pmix_tests.Clients.Fence.{test_fence}
use pmix_tests.Clients.JobFence.{test_job_fence}
use pmix_tests.Clients.Publish.{test_publish_lookup}
use pmix_tests.Clients.Spawn.{test_spawn}
use pmix_tests.Clients.Connect.{test_connect_disconnect}
use pmix_tests.Clients.Resolve.{test_resolve_peers}
use pmix_tests.Clients.Events.{test_error}
use pmix_tests.Clients.Replace.{test_replace}
use pmix_tests.Clients.Internal.{test_internal}
use pmix_tests.Clients.Main.{
  Client, Exit, zero, one, status, exit_unless, run_tests, is_own, tests_of, get_checked, finish,
  run_client, init_client, client_main,
}

-- The tests that are asked for have run one after the other, and each has returned PMIX_SUCCESS.
pub data Passed {L : Type 0} : List (Option (Body L Status)) → L → L → Type 0 where
  nil : {l : L} → Passed [] l l
  skip :
      {tests : List (Option (Body L Status))} {l l2 : L}
      → Passed tests l l2
      → Passed (none ∷ tests) l l2
  pass :
      {test : Body L Status} {tests : List (Option (Body L Status))} {l l1 l2 : L}
      → returned test l ≡ (next success, l1)
      → Passed tests l1 l2
      → Passed (some test ∷ tests) l l2

-- A test has been run, and has returned PMIX_SUCCESS.
abbrev pub Ran : {L : Type 0} → Body L Status → Type 0
Ran {L} test = (l l1 : L) × (returned test l ≡ (next success, l1))

-- What each option asks for.
pub record AllRan {L F : Type 0} (c : Client L F) (params : Params) (self : Proc) : Type 0 where
  pub fences :
      (text : CString)
      → params.fences ≡ some text
      → Ran (test_fence c.data_calls c.floats c.max_nslen params text self)
  pub job_fence :
      params.test_job_fence ≡ true
      → Ran (test_job_fence c.data_calls c.floats c.constants self params)
  pub publish :
      params.test_publish ≡ true
      → Ran (test_publish_lookup c.publish_calls c.max_nslen c.max_keylen self)
  pub spawn : params.test_spawn ≡ true → Ran (test_spawn c.spawn_calls c.max_nslen)
  pub connect :
      params.test_connect ≡ true → Ran (test_connect_disconnect c.connect_calls self.nspace)
  pub resolve_peers :
      params.test_resolve_peers ≡ true
      → Ran (test_resolve_peers c.connect_calls c.resolve_peers c.max_nslen params self.nspace)
  pub errors : params.test_error ≡ true → Ran (test_error c.event_calls self)
  pub replace :
      (text : CString)
      → params.key_replace ≡ some text
      → Ran (test_replace c.data_calls c.floats c.max_nslen self text)
  pub internal :
      params.test_internal ≢ pos 0
      → Ran (test_internal c.data_calls c.floats c.max_nslen self params)

eq_success : (rc : Status) → is_success rc ≡ true → rc ≡ success
eq_success rc e = ground arith

module _ {L : Type 0} where
  exit_unless-zero :
      (b : Bool) (e : Exit) (more : Body L Exit) (l l' : L)
      → e ≢ zero
      → exit_unless b e more l ≡ (next zero, l')
      → (b ≡ true) × (more l ≡ (next zero, l'))
  unfolding exit_unless
  exit_unless-zero true e more l l' ne h = (refl, h)
  exit_unless-zero false e more l l' ne h = absurd (ne (ground arith))

  run_tests-zero :
      (tests : List (Option (Body L Status))) (more : Body L Exit) (l l' : L)
      → run_tests tests more l ≡ (next zero, l')
      → (l2 : L) × Passed tests l l2 × (more l2 ≡ (next zero, l'))
  unfolding run_tests
  run_tests-zero [] more l l' h = (l, nil, h)
  run_tests-zero (none ∷ tests) more l l' h =
      let (l2, p, k) = run_tests-zero tests more l l' h in (l2, skip p, k)
  run_tests-zero (some test ∷ tests) more l l' h =
      ran (returned test l) refl h (λ l1 k. run_tests-zero tests more l1 l' k)
    where
      ran :
          (run : Step Status × L)
          → returned test l ≡ run
          → resume (λ rc. exit_unless (is_success rc) (status rc) (run_tests tests more)) run
            ≡ (next zero, l')
          → ((l1 : L)
              → run_tests tests more l1 ≡ (next zero, l')
              → (l2 : L) × Passed tests l1 l2 × (more l2 ≡ (next zero, l')))
          → (l2 : L) × Passed (some test ∷ tests) l l2 × (more l2 ≡ (next zero, l'))
      ran (next rc, l1) e k rest =
          let (good, k2) =
            exit_unless-zero (is_success rc) (status rc) (run_tests tests more) l1 l' (ground arith)
              k in
          let (l2, p, k3) = rest l1 k2 in
          (l2, pass (e ∙ ap (λ r. (next r, l1)) (eq_success rc good)) p, k3)
      ran (leave rc, l1) e k rest = absurd (ground arith)
      ran (hangs, l1) e k rest = absurd (ground arith)
      ran (crashes, l1) e k rest = absurd (ground arith)

none_ne_some : {A : Type 0} (a : A) → none ≡ some a → ⊥
none_ne_some a e = cc

some_inj : {A : Type 0} {a b : A} → some a ≡ some b → a ≡ b
some_inj e = cc

-- A test that stands in the list.
abbrev Listed : {L : Type 0} → Body L Status → List (Option (Body L Status)) → ℕ → Type 0
Listed test [] n = ⊥
Listed test (t ∷ ts) zero = t ≡ some test
Listed test (t ∷ ts) (suc n) = Listed test ts n

Listed-Ran :
    {L : Type 0} (test : Body L Status) (n : ℕ) {tests : List (Option (Body L Status))} {l l1 : L}
    → Passed tests l l1
    → Listed test tests n
    → Ran test
Listed-Ran test n nil h = absurd h
Listed-Ran test zero (skip p) h = absurd (none_ne_some test h)
Listed-Ran test zero (pass run p) h = subst Ran (some_inj h) (_, _, run)
Listed-Ran test (suc n) (skip p) h = Listed-Ran test n p h
Listed-Ran test (suc n) (pass run p) h = Listed-Ran test n p h

-- `b` holds in all checks that the value of a Get has passed.
module _ {L F : Type 0} (c : Client L F) (params : Params) where
  get_checked-zero :
      (proc : Proc) (key : CString) (is_good : Option (Value F) → Bool) (more : Body L Exit)
      (l l' : L)
      → get_checked c params proc key is_good more l ≡ (next zero, l')
      → (l1 : L) × (more l1 ≡ (next zero, l'))
  unfolding get_checked
  get_checked-zero proc key is_good more l l' h =
      let (rc, val, l1) = c.data_calls.get proc key l in
      let (good, h1) =
        exit_unless-zero (is_success rc) (status rc) (exit_unless (is_good val) one more) l1 l'
          (ground arith) h in
      let (fine, h2) = exit_unless-zero (is_good val) one more l1 l' (ground arith) h1 in (l1, h2)

  finish-zero :
      (l l' : L)
      → finish c params l ≡ (next zero, l')
      → c.finalize (c.data_calls.fence false [] l).1 ≡ (success, l')
  unfolding finish
  finish-zero l l' h =
      let l1 = (c.data_calls.fence false [] l).1 in
      let (rc, l2) = c.finalize l1 in
      let (good, h1) =
        exit_unless-zero (is_success rc) (status rc) (done zero) l2 l' (ground arith) h in
      ap (λ r. (r, l2)) (eq_success rc good) ∙ ap (λ x. (success, x)) (ap (λ r. r.1) h1)

  tests_of-AllRan :
      (self : Proc) (l l1 : L) → Passed (tests_of c params self) l l1 → AllRan c params self
  unfolding tests_of
  tests_of-AllRan self l l1 p = record {
    fences = λ text e. Listed-Ran _ 0 p (rw e refl);
    job_fence = λ e. Listed-Ran _ 1 p (rw e refl);
    publish = λ e. Listed-Ran _ 2 p (rw e refl);
    spawn = λ e. Listed-Ran _ 3 p (rw e refl);
    connect = λ e. Listed-Ran _ 4 p (rw e refl);
    resolve_peers = λ e. Listed-Ran _ 5 p (rw e refl);
    errors = λ e. Listed-Ran _ 6 p (rw e refl);
    replace = λ text e. Listed-Ran _ 7 p (rw e refl);
    internal = λ ne.
        let differ : eqb params.test_internal (pos 0) ≡ false =
          ground (arith, ne, eqb_iff params.test_internal (pos 0)) in
        Listed-Ran _ 8 p (rw differ refl);
  }

  -- A client that exits with 0, whatever the PMIx library answers, has the rank that its options say
  -- and the namespace that they name, if any, has run the test of every option that is set, each with
  -- the result PMIX_SUCCESS and all of them one after the other, and has been finalized.
  pub client_main-zero :
      (l l' : L)
      → client_main c params l ≡ (next zero, l')
      → (self : Proc) × (l1 l2 : L) × (self.rank ≡ params.rank)
        × (is_own params.nspace self.nspace ≡ true)
        × AllRan c params self
        × Passed (tests_of c params self) l1 l2
        × (c.finalize (c.data_calls.fence false [] l2).1 ≡ (success, l'))
  unfolding client_main init_client run_client
  client_main-zero l l' h =
      let (late, h1) =
        exit_unless-zero (not (params.early_fail && (params.rank == 0))) one (init_client c params)
          l l' (ground arith) h in
      let (rc, self, l1) = c.init params.gds_mode l in
      let (good, h2) =
        exit_unless-zero (is_success rc) (status rc)
          (exit_unless (self.rank == params.rank) one (run_client c params self)) l1 l'
          (ground arith) h1 in
      let (ranked, h3) =
        exit_unless-zero (self.rank == params.rank) one (run_client c params self) l1 l'
          (ground arith) h2 in
      let (l2, h4) = get_checked-zero _ _ _ _ l1 l' h3 in
      let (l3, h5) = get_checked-zero _ _ _ _ l2 l' h4 in
      let (l4, h6) = get_checked-zero _ _ _ _ l3 l' h5 in
      let (own, h7) =
        exit_unless-zero (is_own params.nspace self.nspace) one
          (run_tests (tests_of c params self) (finish c params)) l4 l' (ground arith) h6 in
      let (l5, passed, h8) = run_tests-zero (tests_of c params self) (finish c params) l4 l' h7 in
      (
        self,
        l4,
        l5,
        (==_iff self.rank params.rank).0 ranked,
        own,
        tests_of-AllRan self l4 l5 passed,
        passed,
        finish-zero l5 l' h8,
      )
