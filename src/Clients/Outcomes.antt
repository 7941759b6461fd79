-- ===== src/Clients/Outcomes.antt =====
-- How the bodies of the client tests of unit/ go on: with a value and a state of which something is
-- known (`Goes`), or in any way, with what is then known of the state (`Ended`).
use pmix_tests.Base.{Bool, true, false}
use pmix_tests.Base.Status.{Status}
use pmix_tests.Clients.{
  Step, next, leave, hangs, crashes, Body, resume, catch, returned, return_unless,
}

-- A body that goes on with a value and a state, of which `Post` holds.
pub data Goes {A L : Type 0} (Post : A → L → Type 0) : Step A × L → Type 0 where
  goes : {a : A} {l : L} → Post a l → Goes Post (next a, l)

module _ {A B L : Type 0} {Post : A → L → Type 0} {Then : B → L → Type 0} where
  pub Goes-bind :
      {run : Step A × L} (f : A → Body L B)
      → Goes Post run
      → ((a : A) (l : L) → Post a l → Goes Then (f a l))
      → Goes Then (resume f run)
  Goes-bind f (goes p) more = more _ _ p

module _ {A L : Type 0} {Post Then : A → L → Type 0} where
  pub Goes-mono :
      {run : Step A × L} → Goes Post run → ((a : A) (l : L) → Post a l → Then a l) → Goes Then run
  Goes-mono (goes p) more = goes (more _ _ p)

module _ {L : Type 0} {Post : Status → L → Type 0} where
  pub Goes-returned : (m : Body L Status) (l : L) → Goes Post (m l) → Goes Post (returned m l)
  Goes-returned m l h = kept (m l) h
    where
      kept : (run : Step Status × L) → Goes Post run → Goes Post (catch run)
      kept _ (goes p) = goes p

-- What holds of the state where a body goes on or returns.
pub data Ended {A L : Type 0} (P : L → Type 0) : Step A × L → Type 0 where
  onward : {a : A} {l : L} → P l → Ended P (next a, l)
  returns : {rc : Status} {l : L} → P l → Ended P (leave rc, l)
  waits : {l : L} → Ended P (hangs, l)
  undefined : {l : L} → Ended P (crashes, l)

module _ {A B L : Type 0} {P Q : L → Type 0} where
  pub Ended-bind :
      {run : Step A × L} (f : A → Body L B)
      → Ended P run
      → ((l : L) → P l → Q l)
      → ((a : A) (l : L) → P l → Ended Q (f a l))
      → Ended Q (resume f run)
  Ended-bind f (onward p) left more = more _ _ p
  Ended-bind f (returns p) left more = returns (left _ p)
  Ended-bind f waits left more = waits
  Ended-bind f undefined left more = undefined

-- A called function may return an error: its caller goes on in both cases.
module _ {B L : Type 0} {P Q : L → Type 0} (f : Status → Body L B) where
  after_catch :
      {run : Step Status × L}
      → Ended P run
      → ((rc : Status) (l : L) → P l → Ended Q (f rc l))
      → Ended Q (resume f (catch run))
  after_catch (onward p) more = more _ _ p
  after_catch (returns p) more = more _ _ p
  after_catch waits more = waits
  after_catch undefined more = undefined

  pub Ended-returned :
      (m : Body L Status) (l : L)
      → Ended P (m l)
      → ((rc : Status) (l : L) → P l → Ended Q (f rc l))
      → Ended Q (resume f (returned m l))
  Ended-returned m l h more = after_catch h more

module _ {L : Type 0} {P : L → Type 0} where
  pub Ended-return_unless : (b : Bool) (rc : Status) (l : L) → P l → Ended P (return_unless b rc l)
  Ended-return_unless true rc l p = onward p
  Ended-return_unless false rc l p = returns p
