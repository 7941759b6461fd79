-- ===== src/Cli/Phases/Steps.antt =====
-- What one event does to the entry of a client and to its phase, for unit/cli_stages.c and for
-- `finalized` of unit/server_callbacks.c.
use pmix_tests.Base.{
  ℕ, ◌<◌, ◌≡◌, refl, sym, subst, Bool, true, false, ◌==◌, some, none, fault, ap, ◌∙◌, inl, inr, ◌⊎◌,
  Bool-cases, arith, leb, if◌then◌else◌, ok, Returns, returns,
}
use pmix_tests.Base.Text.{CString, str_eq}
use pmix_tests.Cli.{
  fin, term, state_num, Ns, null, live, freed, Stage, order, next_of, abort, set_state, same_state,
  check_next, cli_finalize, same_ns,
}
use pmix_tests.Cli.Cleanup.{NotFreed}
use pmix_tests.Cli.Phases.{
  drop_ns, ended, cleanup-ended, ClientEvent, client_step, Phase, View, hit, phase_step, ns_of,
  state_of, Shows, cli_finalize-forked, NoName, StepShows, launch, finalize, reap, idle, running,
  finished, gone,
}

not_freed :
    (p : Phase) (n : CString) (s : Stage)
    → s.cli.state ≡ state_of p
    → s.cli.ns ≡ ns_of p n
    → state_num s.cli.state < 5
    → NotFreed s.cli.ns
unfolding state_num
not_freed idle n s e f lt = rw f tt
not_freed running n s e f lt = rw f tt
not_freed finished n s e f lt = rw f tt
not_freed gone n s e f lt = absurd (ground (arith, e))

-- The end of the process, in each phase.
reaped_as :
    (p : Phase) (s : Stage) (w : View)
    → s.cli.state ≡ state_of p
    → s.cli.next_state ≡ order
    → (state_num s.cli.state < 5 → NotFreed s.cli.ns)
    → Shows (ended (state_of p) s) w
    → Returns (λ t. Shows t w) (client_step reap s)
unfolding client_step
reaped_as p s w e t f k =
    rw (cleanup-ended 4 s t f)
      (subst (λ st. Returns (λ u. Shows u w) (ok (ended st s))) (sym e) (returns k))

reap-Shows :
    (p : Phase) (r : ℕ) (n : CString) (b : Bool) (s : Stage)
    → Shows s (p, r, n, b)
    → StepShows reap s (phase_step reap (p, r, n, b))
reap-Shows idle r n b s h = reaped_as idle s _ h.state h.table (not_freed idle n s h.state h.ns) h
reap-Shows running r n b s h =
    reaped_as running s _ h.state h.table (not_freed running n s h.state h.ns) (record {
      state = refl;
      table = h.table;
      rank = h.rank;
      ns = ap drop_ns h.ns;
      aborted = refl;
    })
reap-Shows finished r n b s h =
    reaped_as finished s _ h.state h.table (not_freed finished n s h.state h.ns) (record {
      state = refl;
      table = h.table;
      rank = h.rank;
      ns = ap drop_ns h.ns;
      aborted = h.aborted;
    })
reap-Shows gone r n b s h =
    reaped_as gone s _ h.state h.table (not_freed gone n s h.state h.ns)
      (record { state = h.state; table = h.table; rank = h.rank; ns = h.ns; aborted = refl })

cli_finalize-fin :
    (s : Stage)
    → s.cli.state ≡ fin
    → s.cli.next_state ≡ order
    → cli_finalize s ≡ ok (set_state fin (abort s))
unfolding cli_finalize check_next next_of same_state state_num
cli_finalize-fin s e t = rw (e, t)

same_ns-live :
    (nspace n : CString) (ns : Ns) → ns ≡ live n → same_ns nspace ns ≡ ok (str_eq nspace n)
unfolding same_ns
same_ns-live nspace n ns e = rw e refl

same_ns-gone : (nspace : CString) (ns : Ns) → NoName ns → same_ns nspace ns ≡ fault
unfolding same_ns
same_ns-gone nspace null h = refl
same_ns-gone nspace (live n) h = absurd h
same_ns-gone nspace (freed n) h = refl

-- `finalized` for the rank of a client whose name is not there.
nameless-Shows :
    (nspace : CString) (rank : ℕ) (s : Stage)
    → (rank == s.cli.rank) ≡ true
    → NoName s.cli.ns
    → StepShows (finalize nspace rank) s none
unfolding client_step
nameless-Shows nspace rank s m h = (rw (m, same_ns-gone nspace s.cli.ns h) refl, (m, h))

-- The same for one whose name is `n`.
named-step :
    (nspace n : CString) (rank : ℕ) (s t : Stage)
    → (rank == s.cli.rank) ≡ true
    → s.cli.ns ≡ live n
    → leb (state_num term) (state_num s.cli.state) ≡ false
    → cli_finalize s ≡ ok t
    → client_step (finalize nspace rank) s ≡ ok (if str_eq nspace n then t else s)
unfolding client_step
named-step nspace n rank s t m ns early e = elim (Bool-cases (str_eq nspace n)) [
  | inl f ↦ rw (m, same_ns-live nspace n s.cli.ns ns, f, early, e) refl
  | inr f ↦ rw (m, same_ns-live nspace n s.cli.ns ns, f) refl
]

early_at :
    (p : Phase) (s : Stage)
    → (p ≡ running) ⊎ (p ≡ finished)
    → s.cli.state ≡ state_of p
    → leb (state_num term) (state_num s.cli.state) ≡ false
unfolding state_num
early_at p s h e = ground (arith, e)

-- `finalized` for the rank of the client.
own-Shows :
    (p : Phase) (nspace : CString) (rank r : ℕ) (n : CString) (b : Bool) (s : Stage)
    → Shows s (p, r, n, b)
    → (rank == s.cli.rank) ≡ true
    → StepShows (finalize nspace rank) s (hit nspace (p, r, n, b))
own-Shows idle nspace rank r n b s h m = nameless-Shows nspace rank s m (rw h.ns tt)
own-Shows gone nspace rank r n b s h m = nameless-Shows nspace rank s m (rw h.ns tt)
own-Shows running nspace rank r n b s h m =
    rw
      (named-step nspace n rank s (set_state fin s) m h.ns (early_at running s (inl refl) h.state)
        (cli_finalize-forked s h.state h.table))
      (elim (Bool-cases (str_eq nspace n)) [
        | inl e ↦ rw e (
            returns (record {
              state = refl;
              table = h.table;
              rank = h.rank;
              ns = h.ns;
              aborted = h.aborted;
            }))
        | inr e ↦ rw e (returns h)
      ])
own-Shows finished nspace rank r n b s h m =
    rw
      (named-step nspace n rank s (set_state fin (abort s)) m h.ns
        (early_at finished s (inr refl) h.state) (cli_finalize-fin s h.state h.table))
      (elim (Bool-cases (str_eq nspace n)) [
        | inl e ↦ rw e (
            returns
              (record { state = refl; table = h.table; rank = h.rank; ns = h.ns; aborted = refl }))
        | inr e ↦ rw e (returns h)
      ])

other-Shows :
    (nspace : CString) (rank : ℕ) (s : Stage) (v : View)
    → Shows s v
    → (rank == s.cli.rank) ≡ false
    → StepShows (finalize nspace rank) s (some v)
unfolding client_step
other-Shows nspace rank s v h m = rw m (returns h)

pub client_step-Shows :
    (e : ClientEvent) (s : Stage) (v : View) → Shows s v → StepShows e s (phase_step e v)
client_step-Shows (launch pid rank name) s (p, r, n, b) h =
    unfold client_step in
    returns (record { state = refl; table = h.table; rank = refl; ns = refl; aborted = h.aborted })
client_step-Shows (finalize nspace rank) s (p, r, n, b) h = elim (Bool-cases (rank == r)) [
  | inl e ↦ rw e (own-Shows p nspace rank r n b s h (ap (λ k. rank == k) h.rank ∙ e))
  | inr e ↦ rw e (other-Shows nspace rank s (p, r, n, b) h (ap (λ k. rank == k) h.rank ∙ e))
]
client_step-Shows reap s (p, r, n, b) h = reap-Shows p r n b s h
