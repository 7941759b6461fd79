-- ===== src/Simptest/Reap/Counts.antt =====
-- What `wait_signal_callback` of simple/simptest.c counts and keeps.
use pmix_tests.Base.{
  ℕ, zero, suc, ◌+◌, ◌≡◌, refl, ap, ◌∙◌, ◌||◌, Bool, true, false, Option, none, some, List, [], ◌∷◌,
  arith, All, Bool-cases, inl, inr, if◌then◌else◌,
}
use pmix_tests.Base.Int.{ℤ, pos, eqb, eqb_iff}
use pmix_tests.Simptest.{Tracker, Globals}
use pmix_tests.Simptest.Reap.{
  WaitStatus, Waited, interrupted, child, nothing, new_code, mark, behind, pred, account,
  first_code, wait_signal_callback, set_pid, record_pid,
}

-- Whether the table has an entry with the process id.
abbrev pub is_known : ℤ → List Tracker → Bool
is_known pid [] = false
is_known pid (t ∷ ts) = eqb pid t.pid || is_known pid ts

pub mark-unknown :
    (pid : ℤ) (status : WaitStatus) (ts : List Tracker)
    → is_known pid ts ≡ false
    → mark pid status ts ≡ none
unfolding mark
mark-unknown pid status [] h = refl
mark-unknown pid status (t ∷ ts) h = elim (Bool-cases (eqb pid t.pid)) [
  | inl e ↦ ground (arith, e)
  | inr e ↦ rw (e, mark-unknown pid status ts (ground (arith, e))) refl
]

-- A marked entry keeps the process ids of the table.
abbrev pub SamePids : List Tracker → List Tracker → Type 0
SamePids ts ts' = (p : ℤ) → is_known p ts' ≡ is_known p ts

pub mark-known :
    (pid : ℤ) (status : WaitStatus) (ts : List Tracker)
    → is_known pid ts ≡ true
    → (ts' : List Tracker) × (code : ℕ) × (mark pid status ts ≡ some (ts', code)) × SamePids ts ts'
unfolding mark
mark-known pid status [] h = absurd (ground (arith, h))
mark-known pid status (t ∷ ts) h = elim (Bool-cases (eqb pid t.pid)) [
  | inl e ↦
      let code = new_code status t.exit_code in
      (record t { exit_code = code } ∷ ts, code, rw e refl, λ p. refl)
  | inr e ↦
      let (ts', code, eq, same) = mark-known pid status ts (ground (arith, e)) in
      (t ∷ ts', code, rw (e, eq) refl, λ p. rw (same p) refl)
]

-- How many of the answers, up to the first `nothing`, are children of the table.
abbrev pub reaped : List Waited → List Tracker → ℕ
reaped [] ts = 0
reaped (interrupted ∷ ws) ts = reaped ws ts
reaped (nothing ∷ ws) ts = 0
reaped (child pid status ∷ ws) ts = (if is_known pid ts then 1 else 0) + reaped ws ts

reaped-SamePids :
    (ws : List Waited) (ts ts' : List Tracker) → SamePids ts ts' → reaped ws ts' ≡ reaped ws ts
reaped-SamePids [] ts ts' h = refl
reaped-SamePids (interrupted ∷ ws) ts ts' h = reaped-SamePids ws ts ts' h
reaped-SamePids (nothing ∷ ws) ts ts' h = refl
reaped-SamePids (child pid status ∷ ws) ts ts' h = rw (h pid, reaped-SamePids ws ts ts' h) refl

-- Every entry has ended with 0, or is running.
abbrev pub AllFine : List Tracker → Type 0
AllFine = All (λ t. t.exit_code ≡ 0)

-- While `exit_code` is 0, no child that the table knows has failed.
abbrev pub Shown : {V : Type 0} → Globals V → Type 0
Shown s = s.exit_code ≡ pos 0 → AllFine s.children

abbrev Kept : Option (List Tracker × ℕ) → Type 0
Kept none = Unit
Kept (some (ts, code)) = code ≡ 0 → AllFine ts

behind-Kept :
    (t : Tracker) (m : Option (List Tracker × ℕ)) → t.exit_code ≡ 0 → Kept m → Kept (behind t m)
behind-Kept t none h k = tt
behind-Kept t (some (ts, code)) h k = λ z. (h, k z)

mark-Kept :
    (pid : ℤ) (status : WaitStatus) (ts : List Tracker) → AllFine ts → Kept (mark pid status ts)
unfolding mark
mark-Kept pid status [] h = tt
mark-Kept pid status (t ∷ ts) h = elim (Bool-cases (eqb pid t.pid)) [
  | inl e ↦ rw e λ z. (z, h.1)
  | inr e ↦ rw e (behind-Kept t (mark pid status ts) h.0 (mark-Kept pid status ts h.1))
]

first_code-zero : (old : ℤ) (code : ℕ) → first_code old code ≡ pos 0 → (old ≡ pos 0) × (code ≡ 0)
first_code-zero old code h = ground (arith, eqb_iff old (pos 0))

set_pid-AllFine : (n : ℕ) (pid : ℤ) (ts : List Tracker) → AllFine ts → AllFine (set_pid n pid ts)
unfolding set_pid
set_pid-AllFine zero pid [] h = tt
set_pid-AllFine (suc n) pid [] h = tt
set_pid-AllFine zero pid (t ∷ ts) h = h
set_pid-AllFine (suc n) pid (t ∷ ts) h = (h.0, set_pid-AllFine n pid ts h.1)

module _ {V : Type 0} where
  account-Shown :
      (m : Option (List Tracker × ℕ)) (s : Globals V)
      → (AllFine s.children → Kept m)
      → Shown s
      → Shown (account m s)
  unfolding account
  account-Shown none s k h = h
  account-Shown (some (ts, code)) s k h =
      λ z. let (old, new) = first_code-zero s.exit_code code z in k (h old) new

  pub wait_signal_callback-Shown :
      (ws : List Waited) (s : Globals V) → Shown s → Shown (wait_signal_callback ws s)
  unfolding wait_signal_callback
  wait_signal_callback-Shown [] s h = h
  wait_signal_callback-Shown (interrupted ∷ ws) s h = wait_signal_callback-Shown ws s h
  wait_signal_callback-Shown (nothing ∷ ws) s h = h
  wait_signal_callback-Shown (child pid status ∷ ws) s h =
      let m = mark pid status s.children in
      wait_signal_callback-Shown ws (account m s)
        (account-Shown m s (mark-Kept pid status s.children) h)

  pub record_pid-Shown : (n : ℕ) (pid : ℤ) (s : Globals V) → Shown s → Shown (record_pid n pid s)
  unfolding record_pid
  record_pid-Shown n pid s h = λ z. set_pid-AllFine n pid s.children (h z)

  -- Each child of the table that is reaped, and nothing else, takes one from `wakeup`; an answer for
  -- a process that the table does not have changes nothing.
  pub wait_signal_callback-wakeup :
      (ws : List Waited) (s : Globals V) (k : ℕ)
      → s.wakeup ≡ pos (reaped ws s.children + k)
      → (wait_signal_callback ws s).wakeup ≡ pos k
  unfolding wait_signal_callback account pred
  wait_signal_callback-wakeup [] s k h =
      let e : 0 + k ≡ k = omega arith in h ∙ ap (λ (j : ℕ). pos j) e
  wait_signal_callback-wakeup (interrupted ∷ ws) s k h = wait_signal_callback-wakeup ws s k h
  wait_signal_callback-wakeup (nothing ∷ ws) s k h =
      let e : 0 + k ≡ k = omega arith in h ∙ ap (λ (j : ℕ). pos j) e
  wait_signal_callback-wakeup (child pid status ∷ ws) s k h =
      let count = (if is_known pid s.children then 1 else 0) + reaped ws s.children in
      let after =
        λ (m : Option (List Tracker × ℕ)). (wait_signal_callback ws (account m s)).wakeup in
      elim (Bool-cases (is_known pid s.children)) [
        | inl e ↦
            let (ts, code, eq, same) = mark-known pid status s.children e in
            let one : count + k ≡ suc (reaped ws ts + k) =
              rw (e, reaped-SamePids ws s.children ts same) (omega arith) in
            let less : pred s.wakeup ≡ pos (reaped ws ts + k) =
              ap pred (h ∙ ap (λ (j : ℕ). pos j) one) in
            ap after eq ∙ wait_signal_callback-wakeup ws (account (some (ts, code)) s) k less
        | inr e ↦
            let none_new : count + k ≡ reaped ws s.children + k = rw e (omega arith) in
            ap after (mark-unknown pid status s.children e)
            ∙ wait_signal_callback-wakeup ws s k (h ∙ ap (λ (j : ℕ). pos j) none_new)
      ]
