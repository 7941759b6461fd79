-- ===== src/Simptest/Reap/Reported.antt =====
-- The ends that `wait_signal_callback` of simple/simptest.c takes from waitpid.
use pmix_tests.Base.{
  ℕ, zero, suc, ◌+◌, ◌≤◌, ◌≡◌, refl, sym, Option, none, some, List, [], ◌∷◌, ◌++◌, length,
  length-append, arith, subst, All, All-append, Bool-cases, inl, inr, if◌then◌else◌,
}
use pmix_tests.Base.Int.{ℤ, pos, negsuc, eqb, eqb_iff}
use pmix_tests.Simptest.{Tracker, Globals}
use pmix_tests.Simptest.Reap.{
  WaitStatus, exited, signaled, other, Waited, interrupted, child, nothing, new_code, mark, behind,
  pred, account, wait_signal_callback,
}
use pmix_tests.Simptest.Reap.Counts.{is_known, SamePids, mark-known, mark-unknown}

-- The statuses of the children of the table among the answers, up to the first `nothing`.
unfoldable pub taken : List Waited → List Tracker → List WaitStatus
taken [] ts = []
taken (interrupted ∷ ws) ts = taken ws ts
taken (nothing ∷ ws) ts = []
taken (child pid status ∷ ws) ts =
    let rest = taken ws ts in if is_known pid ts then status ∷ rest else rest

taken-SamePids :
    (ws : List Waited) (ts ts' : List Tracker) → SamePids ts ts' → taken ws ts' ≡ taken ws ts
unfolding taken
taken-SamePids [] ts ts' h = refl
taken-SamePids (interrupted ∷ ws) ts ts' h = taken-SamePids ws ts ts' h
taken-SamePids (nothing ∷ ws) ts ts' h = refl
taken-SamePids (child pid status ∷ ws) ts ts' h = rw (h pid, taken-SamePids ws ts ts' h) refl

-- An exit with 0; a status that is neither an exit nor a signal is let pass.
abbrev pub IsFine : WaitStatus → Type 0
IsFine (exited code) = code ≡ 0
IsFine (signaled sig) = ⊥
IsFine other = Unit {0}

-- What is left of a count that is not below 0.
abbrev pub left : ℤ → ℕ
left (pos n) = n
left (negsuc n) = 0

left-pred : (z : ℤ) → left z ≤ suc (left (pred z))
unfolding pred
left-pred (pos zero) = omega arith
left-pred (pos (suc n)) = omega arith
left-pred (negsuc n) = omega arith

new_code-IsFine : (status : WaitStatus) (old : ℕ) → new_code status old ≡ 0 → IsFine status
unfolding new_code
new_code-IsFine (exited code) old h = h
new_code-IsFine (signaled sig) old h = absurd (omega arith)
new_code-IsFine other old h = tt

abbrev FineIf : WaitStatus → Option (List Tracker × ℕ) → Type 0
FineIf status none = Unit
FineIf status (some (ts, code)) = code ≡ 0 → IsFine status

behind-FineIf :
    (status : WaitStatus) (t : Tracker) (m : Option (List Tracker × ℕ))
    → FineIf status m
    → FineIf status (behind t m)
behind-FineIf status t none k = tt
behind-FineIf status t (some (ts, code)) k = k

mark-FineIf :
    (pid : ℤ) (status : WaitStatus) (ts : List Tracker) → FineIf status (mark pid status ts)
unfolding mark
mark-FineIf pid status [] = tt
mark-FineIf pid status (t ∷ ts) = elim (Bool-cases (eqb pid t.pid)) [
  | inl e ↦ rw e (new_code-IsFine status t.exit_code)
  | inr e ↦ rw e (behind-FineIf status t (mark pid status ts) (mark-FineIf pid status ts))
]

module _ {V : Type 0} where
  -- From one state to the next with the ends taken: an exit code of 0 shows that all of these are
  -- fine, and each of them takes one from `wakeup` at most.
  abbrev pub Reports : List WaitStatus → Globals V → Globals V → Type 0
  Reports statuses s s' =
      (s'.exit_code ≡ pos 0 → (s.exit_code ≡ pos 0) × All IsFine statuses)
      × (left s.wakeup ≤ length statuses + left s'.wakeup)

  pub Reports-trans :
      (xs ys : List WaitStatus) (s s1 s2 : Globals V)
      → Reports xs s s1
      → Reports ys s1 s2
      → Reports (xs ++ ys) s s2
  Reports-trans xs ys s s1 s2 (f, le) (f', le') = (
    (λ z. let (z1, hb) = f' z in let (z0, ha) = f z1 in (z0, All-append IsFine xs ys ha hb)),
    (let e : length (xs ++ ys) ≡ length xs + length ys = length-append xs ys in omega arith),
  )

  account-Reports :
      (status : WaitStatus) (ts : List Tracker) (code : ℕ) (s : Globals V)
      → (code ≡ 0 → IsFine status)
      → Reports (status ∷ []) s (account (some (ts, code)) s)
  unfolding account pred
  account-Reports status ts code s fine = (
    (λ z.
        let both : (s.exit_code ≡ pos 0) × (code ≡ 0) =
          ground (arith, z, eqb_iff s.exit_code (pos 0)) in
        (both.0, (fine both.1, tt))),
    (let le = left-pred s.wakeup in omega arith),
  )

  pub wait_signal_callback-Reports :
      (ws : List Waited) (s : Globals V)
      → Reports (taken ws s.children) s (wait_signal_callback ws s)
  unfolding wait_signal_callback taken account
  wait_signal_callback-Reports [] s = ((λ z. (z, tt)), omega arith)
  wait_signal_callback-Reports (interrupted ∷ ws) s = wait_signal_callback-Reports ws s
  wait_signal_callback-Reports (nothing ∷ ws) s = ((λ z. (z, tt)), omega arith)
  wait_signal_callback-Reports (child pid status ∷ ws) s =
      elim (Bool-cases (is_known pid s.children)) [
        | inl e ↦
            let (ts, code, eq, same) = mark-known pid status s.children e in
            let fine = subst (FineIf status) eq (mark-FineIf pid status s.children) in
            let s1 = account (some (ts, code)) s in
            let later =
              subst (λ l. Reports l s1 (wait_signal_callback ws s1))
                (taken-SamePids ws s.children ts same) (wait_signal_callback-Reports ws s1) in
            rw e (
              subst
                (λ m.
                  Reports (status ∷ taken ws s.children) s (wait_signal_callback ws (account m s)))
                (sym eq)
                (Reports-trans (status ∷ []) (taken ws s.children) s s1 (wait_signal_callback ws s1)
                  (account-Reports status ts code s fine) later))
        | inr e ↦ rw e (
            subst (λ m. Reports (taken ws s.children) s (wait_signal_callback ws (account m s)))
              (sym (mark-unknown pid status s.children e)) (wait_signal_callback-Reports ws s))
      ]
