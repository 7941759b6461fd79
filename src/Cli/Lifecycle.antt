-- ===== src/Cli/Lifecycle.antt =====
-- What the stage functions of unit/cli_stages.c and `finalized` of unit/server_callbacks.c do on the
-- table of one client that `cli_init` writes: the stages a client passes in a correct run are forked,
-- finalized, terminated, in this order.
use pmix_tests.Base.{
  ℕ, ◌≡◌, refl, ◌⊎◌, inl, inr, true, false, Option, some, none, List, [], ◌∷◌, ◌==◌, Bool-cases,
  Run, ok, fault, Returns, Returns-mono, Returns-value, ap, ◌∙◌, sym, subst,
}
use pmix_tests.Base.Int.{ℤ}
use pmix_tests.Base.Text.{CString, str_eq}
use pmix_tests.Cli.{fresh_cli, rank_undef, Stage}
use pmix_tests.Cli.Phases.{
  ClientEvent, client_run, Phase, View, hit, state_of, Shows, launch, finalize, reap, idle, running,
  finished, gone,
}
use pmix_tests.Cli.Phases.Runs.{and_then, phase_run, Dangles, RunShows, client_run-Shows}

-- The event sequences of a correct client with the rank `r` and the namespace `n`: a fork, a finalize
-- and an end, in this order. An end seen before the fork is ignored, a fork starts over with a new
-- rank and namespace, and a finalize of another process is ignored: of another rank at any time, of
-- the same rank in another namespace while the client runs.
pub data Passes : Phase → ℕ → CString → List ClientEvent → Phase → Type 0 where
  stop : {p : Phase} {r : ℕ} {n : CString} → Passes p r n [] p
  early_reap :
      {r : ℕ} {n : CString} {es : List ClientEvent} {q : Phase}
      → Passes idle r n es q
      → Passes idle r n (reap ∷ es) q
  start :
      {p q : Phase} {r : ℕ} {n : CString} {pid : ℤ} {rank : ℕ} {name : CString}
      {es : List ClientEvent}
      → Passes running rank name es q
      → Passes p r n (launch pid rank name ∷ es) q
  other_rank :
      {p q : Phase} {r : ℕ} {n nspace : CString} {rank : ℕ} {es : List ClientEvent}
      → (rank == r) ≡ false
      → Passes p r n es q
      → Passes p r n (finalize nspace rank ∷ es) q
  other_nspace :
      {p q : Phase} {r : ℕ} {n nspace : CString} {rank : ℕ} {es : List ClientEvent}
      → (p ≡ running) ⊎ (p ≡ finished)
      → str_eq nspace n ≡ false
      → Passes p r n es q
      → Passes p r n (finalize nspace rank ∷ es) q
  finish :
      {r : ℕ} {n nspace : CString} {rank : ℕ} {es : List ClientEvent} {q : Phase}
      → (rank == r) ≡ true
      → str_eq nspace n ≡ true
      → Passes finished r n es q
      → Passes running r n (finalize nspace rank ∷ es) q
  leave :
      {r : ℕ} {n : CString} {es : List ClientEvent} {q : Phase}
      → Passes gone r n es q
      → Passes finished r n (reap ∷ es) q

-- Where a run without a bad read ends.
abbrev AbortedIn : Option View → Type 0
AbortedIn none = Unit
AbortedIn (some v) = v.3 ≡ true

phase_run-true :
    (es : List ClientEvent) (p : Phase) (r : ℕ) (n : CString)
    → AbortedIn (phase_run (p, r, n, true) es)
phase_run-true [] p r n = refl
phase_run-true (launch pid rank name ∷ es) p r n = phase_run-true es running rank name
phase_run-true (reap ∷ es) idle r n = phase_run-true es idle r n
phase_run-true (reap ∷ es) running r n = phase_run-true es gone r n
phase_run-true (reap ∷ es) finished r n = phase_run-true es gone r n
phase_run-true (reap ∷ es) gone r n = phase_run-true es gone r n
phase_run-true (finalize nspace rank ∷ es) p r n = elim (Bool-cases (rank == r)) [
  | inr e ↦ rw e (phase_run-true es p r n)
  | inl e ↦ rw e (hit-true p (λ q. phase_run-true es q r n))
]
  where
    hit-true :
        (p : Phase)
        → ((q : Phase) → AbortedIn (phase_run (q, r, n, true) es))
        → AbortedIn (and_then (hit nspace (p, r, n, true)) (λ w. phase_run w es))
    hit-true idle more = tt
    hit-true gone more = tt
    hit-true running more = elim (Bool-cases (str_eq nspace n)) [
      | inl e ↦ rw e (more finished)
      | inr e ↦ rw e (more running)
    ]
    hit-true finished more = elim (Bool-cases (str_eq nspace n)) [
      | inl e ↦ rw e (more finished)
      | inr e ↦ rw e (more finished)
    ]

-- A run that is aborted once stays so.
not_clean : (o : Option View) (v : View) → AbortedIn o → o ≡ some v → v.3 ≡ false → ⊥
not_clean none v a e h = cc
not_clean (some w) v a e h = cc

none_ne_some : (v : View) → ◌≡◌ {A = Option View} none (some v) → ⊥
none_ne_some v e = cc

some_inj : (v w : View) → ◌≡◌ {A = Option View} (some v) (some w) → v ≡ w
some_inj v w e = cc

Passes-of_clean :
    (es : List ClientEvent) (p : Phase) (r : ℕ) (n : CString) (v : View)
    → phase_run (p, r, n, false) es ≡ some v
    → v.3 ≡ false
    → Passes p r n es v.0
Passes-of_clean [] p r n v e h =
    subst (λ (w : View). Passes p r n [] w.0) (some_inj (p, r, n, false) v e) stop
Passes-of_clean (launch pid rank name ∷ es) p r n v e h =
    start (Passes-of_clean es running rank name v e h)
Passes-of_clean (reap ∷ es) idle r n v e h = early_reap (Passes-of_clean es idle r n v e h)
Passes-of_clean (reap ∷ es) running r n v e h =
    absurd (not_clean _ v (phase_run-true es gone r n) e h)
Passes-of_clean (reap ∷ es) finished r n v e h = leave (Passes-of_clean es gone r n v e h)
Passes-of_clean (reap ∷ es) gone r n v e h = absurd (not_clean _ v (phase_run-true es gone r n) e h)
Passes-of_clean (finalize nspace rank ∷ es) p r n v e h = elim (Bool-cases (rank == r)) [
  | inr f ↦ other_rank f (Passes-of_clean es p r n v (rw f at e) h)
  | inl f ↦ hit-Passes p (rw f at e) (λ q k. Passes-of_clean es q r n v k h) f
]
  where
    hit-Passes :
        (p : Phase)
        → and_then (hit nspace (p, r, n, false)) (λ w. phase_run w es) ≡ some v
        → ((q : Phase) → phase_run (q, r, n, false) es ≡ some v → Passes q r n es v.0)
        → (rank == r) ≡ true
        → Passes p r n (finalize nspace rank ∷ es) v.0
    hit-Passes idle k more f = absurd (none_ne_some v k)
    hit-Passes gone k more f = absurd (none_ne_some v k)
    hit-Passes running k more f = elim (Bool-cases (str_eq nspace n)) [
      | inl g ↦ finish f g (more finished (rw g at k))
      | inr g ↦ other_nspace (inl refl) g (more running (rw g at k))
    ]
    hit-Passes finished k more f = elim (Bool-cases (str_eq nspace n)) [
      | inl g ↦ absurd (not_clean _ v (phase_run-true es finished r n) (rw g at k) h)
      | inr g ↦ other_nspace (inr refl) g (more finished (rw g at k))
    ]

abbrev Clean : Phase → ℕ → CString → List ClientEvent → Phase → Type 0
Clean p r n es q =
    (rank : ℕ) × (name : CString) × (phase_run (p, r, n, false) es ≡ some (q, rank, name, false))

other_nspace-Clean :
    (p q : Phase) (r : ℕ) (n nspace : CString) (rank : ℕ) (es : List ClientEvent)
    → (p ≡ running) ⊎ (p ≡ finished)
    → str_eq nspace n ≡ false
    → Clean p r n es q
    → Clean p r n (finalize nspace rank ∷ es) q
other_nspace-Clean p q r n nspace rank es live e (a, b, k) = elim (Bool-cases (rank == r)) [
  | inr f ↦ (a, b, rw f k)
  | inl f ↦ elim live [
    | inl x ↦ (a, b, rw f (rw x (rw e (rw x at k))))
    | inr x ↦ (a, b, rw f (rw x (rw e (rw x at k))))
  ]
]

Passes-Clean :
    {p q : Phase} {r : ℕ} {n : CString} {es : List ClientEvent}
    → Passes p r n es q
    → Clean p r n es q
Passes-Clean (stop {p} {r} {n}) = (r, n, refl)
Passes-Clean (early_reap k) = Passes-Clean k
Passes-Clean (start k) = Passes-Clean k
Passes-Clean (leave k) = Passes-Clean k
Passes-Clean (other_rank e k) = let (a, b, c) = Passes-Clean k in (a, b, rw e c)
Passes-Clean (other_nspace {p} {q} {r} {n} {nspace} {rank} {es} live e k) =
    other_nspace-Clean p q r n nspace rank es live e (Passes-Clean k)
Passes-Clean (finish e f k) = let (a, b, c) = Passes-Clean k in (a, b, rw (e, f) c)

abbrev pub start_stage : Stage
start_stage = record { cli = fresh_cli; test_abort = false; effects = [] }

start-Shows : Shows start_stage (idle, rank_undef, [], false)
start-Shows = record { state = refl; table = refl; rank = refl; ns = refl; aborted = refl }

-- The outcome of the table over the events `es`, the test being not aborted before. A run either ends
-- with the stage `t`, or reads a namespace that is not there; `rank_undef` is the rank that the entry
-- has before a fork.
pub record Outcome (es : List ClientEvent) : Type 0 where
  pub sound :
      (t : Stage)
      → client_run start_stage es ≡ ok t
      → t.test_abort ≡ false
      → (q : Phase) × Passes idle rank_undef [] es q × (t.cli.state ≡ state_of q)
  pub complete :
      (q : Phase)
      → Passes idle rank_undef [] es q
      → Returns
          (λ t. (t.test_abort ≡ false) × (t.cli.state ≡ state_of q))
          (client_run start_stage es)
  pub ends :
      ((t : Stage) × (client_run start_stage es ≡ ok t))
      ⊎ ((client_run start_stage es ≡ fault) × Dangles start_stage es)

module _ (es : List ClientEvent) where
  shown : RunShows start_stage es (phase_run (idle, rank_undef, [], false) es)
  shown = client_run-Shows es start_stage (idle, rank_undef, [], false) start-Shows

  sound_at :
      (o : Option View) (t : Stage)
      → phase_run (idle, rank_undef, [], false) es ≡ o
      → RunShows start_stage es o
      → client_run start_stage es ≡ ok t
      → t.test_abort ≡ false
      → (q : Phase) × Passes idle rank_undef [] es q × (t.cli.state ≡ state_of q)
  sound_at none t eq (f, d) run h = absurd (fault_ne t (sym f ∙ run))
    where
      fault_ne : (t : Stage) → ◌≡◌ {A = Run Stage} fault (ok t) → ⊥
      fault_ne t e = cc
  sound_at (some v) t eq k run h =
      let (u, e, shows) = Returns-value k in
      let same : u ≡ t = ok_inj u t (sym e ∙ run) in
      let aborted : v.3 ≡ false = sym shows.aborted ∙ ap (λ (s : Stage). s.test_abort) same ∙ h in
      (
        v.0,
        Passes-of_clean es idle rank_undef [] v eq aborted,
        ap (λ (s : Stage). s.cli.state) (sym same) ∙ shows.state,
      )
    where
      ok_inj : (u t : Stage) → ◌≡◌ {A = Run Stage} (ok u) (ok t) → u ≡ t
      ok_inj u t e = cc

  ends_at :
      (o : Option View)
      → RunShows start_stage es o
      → ((t : Stage) × (client_run start_stage es ≡ ok t))
        ⊎ ((client_run start_stage es ≡ fault) × Dangles start_stage es)
  ends_at none k = inr k
  ends_at (some v) k = let (t, e, _) = Returns-value k in inl (t, e)

  complete_at :
      (o : Option View) (v : View)
      → o ≡ some v
      → v.3 ≡ false
      → RunShows start_stage es o
      → Returns
          (λ t. (t.test_abort ≡ false) × (t.cli.state ≡ state_of v.0))
          (client_run start_stage es)
  complete_at none v e h k = absurd (none_ne_some v e)
  complete_at (some w) v e h k = Returns-mono k λ t shows. (
    shows.aborted ∙ ap (λ (x : View). x.3) (some_inj w v e) ∙ h,
    shows.state ∙ ap (λ (x : View). state_of x.0) (some_inj w v e),
  )

  -- From the entry that `cli_init` writes, with any sequence of events: a sequence of a correct client
  -- runs to its end, leaves `test_abort` unset, and its last stage is then the state of the entry;
  -- every other one that runs to its end sets `test_abort`. The only sequences that do not run to their
  -- end are those with a call of `finalized` for the rank of a client whose namespace is NULL or freed.
  pub client_run-Outcome : Outcome es
  client_run-Outcome = record {
    sound = λ t. sound_at (phase_run (idle, rank_undef, [], false) es) t refl shown;
    complete = λ q k.
        let (a, b, e) = Passes-Clean k in
        complete_at (phase_run (idle, rank_undef, [], false) es) (q, a, b, false) e refl shown;
    ends = ends_at (phase_run (idle, rank_undef, [], false) es) shown;
  }
