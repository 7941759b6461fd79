-- ===== src/Cli/Phases/Runs.antt =====
-- What a sequence of events does to the entry of a client and to its phase.
use pmix_tests.Base.{
  ◌≡◌, refl, Option, some, none, fault, List, [], ◌∷◌, ok, Returns, returns, Returns-value,
}
use pmix_tests.Cli.{Stage}
use pmix_tests.Cli.Phases.{
  ClientEvent, client_step, client_run, View, phase_step, Shows, IsDangling, StepShows,
}
use pmix_tests.Cli.Phases.Steps.{client_step-Shows}

abbrev pub and_then : Option View → (View → Option View) → Option View
and_then none f = none
and_then (some v) f = f v

abbrev pub phase_run : View → List ClientEvent → Option View
phase_run v [] = some v
phase_run v (e ∷ es) = and_then (phase_step e v) (λ w. phase_run w es)

-- The events reach a call of `finalized` for the rank of a client whose namespace is NULL or freed.
pub data Dangles : Stage → List ClientEvent → Type 0 where
  here : {s : Stage} {e : ClientEvent} {es : List ClientEvent} → IsDangling e s → Dangles s (e ∷ es)
  later :
      {s t : Stage} {e : ClientEvent} {es : List ClientEvent}
      → client_step e s ≡ ok t
      → Dangles t es
      → Dangles s (e ∷ es)

abbrev pub RunShows : Stage → List ClientEvent → Option View → Type 0
RunShows s es (some v) = Returns (λ t. Shows t v) (client_run s es)
RunShows s es none = (client_run s es ≡ fault) × Dangles s es

-- A client's entry shows the phases of the events, up to one at which a name is read that is not
-- there.
pub client_run-Shows :
    (es : List ClientEvent) (s : Stage) (v : View) → Shows s v → RunShows s es (phase_run v es)
unfolding client_run
client_run-Shows [] s v h = returns h
client_run-Shows (e ∷ es) s v h =
    go (phase_step e v) (client_step-Shows e s v h) (λ w t k. client_run-Shows es t w k)
  where
    after :
        (r : Option View) (t : Stage)
        → client_step e s ≡ ok t
        → RunShows t es r
        → RunShows s (e ∷ es) r
    after none t eq (f, d) = (rw eq f, later eq d)
    after (some w) t eq k = rw eq k

    go :
        (r : Option View)
        → StepShows e s r
        → ((w : View) (t : Stage) → Shows t w → RunShows t es (phase_run w es))
        → RunShows s (e ∷ es) (and_then r (λ w. phase_run w es))
    go none (f, d) more = (rw f refl, here d)
    go (some w) k more =
        let (t, eq, shows) = Returns-value k in after (phase_run w es) t eq (more w t shows)
