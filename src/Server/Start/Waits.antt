-- ===== src/Server/Start/Waits.antt =====
-- What the sum of `srv_wait_all` in unit/test_server.c says of the servers that it waited for, and
-- what `server_finalize` makes of it.
use pmix_tests.Base.{
  ℕ, ◌+◌, ◌≤◌, ◌<◌, ◌≡◌, ◌≢◌, refl, ap, ◌⊎◌, inl, inr, Bool, true, false, not, ◌&&◌, ◌||◌, some,
  List, [], ◌∷◌, ◌==◌, arith, leb, if◌then◌else◌, ◌/◌, ◌%◌,
}
use pmix_tests.Base.Int.{ℤ, pos, eqb, eqb_refl, ◌+ℤ◌}
use pmix_tests.Server.Start.{
  ServerInfo, Report, wexitstatus, remove_first, reap_servers, reap_report, is_empty, WaitEnd,
  waited, blocked, wait_servers, srv_wait_all, add_waited, server_finalize,
}

-- Is there a server with a process id?
abbrev pub has_pid : ℤ → List ServerInfo → Bool
has_pid p [] = false
has_pid p (s ∷ ss) = eqb s.pid p || has_pid p ss

-- Did `waitpid` answer with a process id and a status whose WEXITSTATUS is 0? So is that of a process
-- that a signal ended: the code does not ask WIFEXITED.
abbrev pub zero_reported : ℤ → List Report → Bool
zero_reported p [] = false
zero_reported p (r ∷ rs) = (eqb r.pid p && (wexitstatus r.status == 0)) || zero_reported p rs

-- Is a round of the loop over after the timeout?
abbrev pub any_late : ℕ → ℕ → List Report → Bool
any_late timeout elapsed [] = not (leb elapsed timeout)
any_late timeout elapsed (r ∷ rs) = not (leb elapsed timeout) || any_late timeout r.elapsed rs

reap_mono : (r : Report) (ss : List ServerInfo) (ret : ℕ) → ret ≤ (reap_servers r ss ret).1
unfolding reap_servers
reap_mono r [] ret = omega arith
reap_mono r (s ∷ ss) ret =
    ground (arith, reap_mono r ss ret, reap_mono r ss (ret + wexitstatus r.status))

pid_of_both : (a b c : ℤ) → eqb a b ≡ true → eqb a c ≡ true → eqb c b ≡ true
pid_of_both a b c h k = ground arith

module _ (p : ℤ) where
  -- A server stays in the list, or the report is its own, with its exit status in the sum.
  reap-kept :
      (r : Report) (ss : List ServerInfo) (ret : ℕ)
      → has_pid p ss ≡ true
      → (reap_servers r ss ret).1 ≡ 0
      → (has_pid p (reap_servers r ss ret).0 ≡ true)
        ⊎ ((eqb r.pid p && (wexitstatus r.status == 0)) ≡ true)
  unfolding reap_servers
  reap-kept r [] ret h z = ground arith
  reap-kept r (s ∷ ss) ret h z = ground (
    arith,
    pid_of_both s.pid p r.pid,
    reap_mono r ss (ret + wexitstatus r.status),
    reap-kept r ss ret,
    reap-kept r ss (ret + wexitstatus r.status),
  )

  report-kept :
      (r : Report) (ss : List ServerInfo) (ret : ℕ)
      → has_pid p ss ≡ true
      → (reap_report r ss ret).1 ≡ 0
      → (has_pid p (reap_report r ss ret).0 ≡ true)
        ⊎ ((eqb r.pid p && (wexitstatus r.status == 0)) ≡ true)
  report-kept r ss ret h z = ground (arith, reap-kept r ss ret)

report_mono : (r : Report) (ss : List ServerInfo) (ret : ℕ) → ret ≤ (reap_report r ss ret).1
report_mono r ss ret = ground (arith, reap_mono r ss ret)

same_sum : (a b : List ServerInfo) (m n : ℕ) → waited a m ≡ waited b n → (a ≡ b) × (m ≡ n)
same_sum a b m n h = grind arith

or_left : (a b : Bool) → a ≡ true → (a || b) ≡ true
or_left a b h = ground arith

or_right : (a b : Bool) → b ≡ true → (a || b) ≡ true
or_right a b h = ground arith

blocked_ne : (left : List ServerInfo) (total : ℕ) → blocked ≡ waited left total → ⊥
blocked_ne left total h = grind arith

module _ (timeout : ℕ) (left : List ServerInfo) where
  wait_mono :
      (reports : List Report) (elapsed : ℕ) (ss : List ServerInfo) (ret total : ℕ)
      → wait_servers timeout elapsed reports ss ret ≡ waited left total
      → ret ≤ total
  unfolding wait_servers
  wait_mono [] elapsed ss ret total h = ground (arith, same_sum ss left ret total)
  wait_mono (r ∷ rs) elapsed ss ret total h = ground (
    arith,
    same_sum ss left ret total,
    report_mono r ss ret,
    wait_mono rs r.elapsed (reap_report r ss ret).0 (reap_report r ss ret).1 total,
  )

  stopped-kept :
      (p : ℤ) (ss : List ServerInfo) (ret total : ℕ)
      → waited ss ret ≡ waited left total
      → has_pid p ss ≡ true
      → has_pid p left ≡ true
  stopped-kept p ss ret total h m = (rw (same_sum ss left ret total h).0 at m)

  -- The loop's test and its two outcomes.
  round_cases :
      (elapsed : ℕ) (ss : List ServerInfo) (ret total : ℕ) (rest : WaitEnd)
      → (if not (is_empty ss) && leb elapsed timeout then rest else waited ss ret)
        ≡ waited left total
      → (rest ≡ waited left total)
        ⊎ ((waited ss ret ≡ waited left total)
            × ((is_empty ss ≡ true) ⊎ (not (leb elapsed timeout) ≡ true)))
  round_cases elapsed ss ret total rest h = ground arith

  wait-ended :
      (p : ℤ) (reports : List Report) (elapsed : ℕ) (ss : List ServerInfo) (ret : ℕ)
      → wait_servers timeout elapsed reports ss ret ≡ waited left 0
      → has_pid p ss ≡ true
      → (has_pid p left ≡ true) ⊎ (zero_reported p reports ≡ true)
  unfolding wait_servers
  wait-ended p [] elapsed ss ret h m = elim (round_cases elapsed ss ret 0 blocked h) [
    | inl e ↦ absurd (blocked_ne left 0 e)
    | inr (e, _) ↦ inl (stopped-kept p ss ret 0 e m)
  ]
  wait-ended p (r ∷ rs) elapsed ss ret h m =
      let after = reap_report r ss ret in
      elim (round_cases elapsed ss ret 0 _ h) [
        | inr (e, _) ↦ inl (stopped-kept p ss ret 0 e m)
        | inl e ↦
            let z : after.1 ≡ 0 = omega (arith, wait_mono rs r.elapsed after.0 after.1 0 e) in
            elim (report-kept p r ss ret m z) [
              | inr own ↦ inr (or_left _ _ own)
              | inl kept ↦ elim (wait-ended p rs r.elapsed after.0 after.1 e kept) [
                | inl l ↦ inl l
                | inr l ↦ inr (or_right _ _ l)
              ]
            ]
      ]

  wait-done :
      (reports : List Report) (elapsed : ℕ) (ss : List ServerInfo) (ret total : ℕ)
      → wait_servers timeout elapsed reports ss ret ≡ waited left total
      → (is_empty left ≡ true) ⊎ (any_late timeout elapsed reports ≡ true)
  unfolding wait_servers
  wait-done [] elapsed ss ret total h = elim (round_cases elapsed ss ret total blocked h) [
    | inl e ↦ absurd (blocked_ne left total e)
    | inr (e, inl l) ↦ inl (rw (same_sum ss left ret total e).0 at l)
    | inr (e, inr l) ↦ inr l
  ]
  wait-done (r ∷ rs) elapsed ss ret total h =
      let after = reap_report r ss ret in
      elim (round_cases elapsed ss ret total _ h) [
        | inl e ↦ elim (wait-done rs r.elapsed after.0 after.1 total e) [
          | inl l ↦ inl l
          | inr l ↦ inr (or_right _ _ l)
        ]
        | inr (e, inl l) ↦ inl (rw (same_sum ss left ret total e).0 at l)
        | inr (e, inr l) ↦ inr (or_left _ _ l)
      ]

-- When `srv_wait_all` ends with a sum of 0, every other server is still in the list or was reported
-- with a status whose WEXITSTATUS is 0, as one that exited with 0 or that a signal ended has it, and
-- no server is left in it unless some round was over after the timeout.
pub srv_wait_all-verdict :
    (timeout : ℕ) (getpid p : ℤ) (reports : List Report) (servers left : List ServerInfo)
    → srv_wait_all timeout getpid reports servers ≡ waited left 0
    → has_pid p (remove_first getpid servers) ≡ true
    → ((has_pid p left ≡ true) ⊎ (zero_reported p reports ≡ true))
      × ((is_empty left ≡ true) ⊎ (any_late timeout 0 reports ≡ true))
unfolding srv_wait_all
srv_wait_all-verdict timeout getpid p reports servers left h m = (
  wait-ended timeout left p reports 0 (remove_first getpid servers) 0 h m,
  wait-done timeout left reports 0 (remove_first getpid servers) 0 0 h,
)

ne_pid : (g q : ℕ) → g ≢ q → eqb (pos q) (pos g) ≡ false
ne_pid g q h = ground arith

killed_sum :
    (g q : ℕ) (own other : ServerInfo) (status elapsed : ℕ)
    → g ≢ q
    → own.pid ≡ pos g
    → other.pid ≡ pos q
    → status < 256
    → srv_wait_all 10000000
        (pos g)
        (record { pid = pos q; status = status; elapsed = elapsed } ∷ [])
        (other ∷ own ∷ [])
      ≡ waited [] 0
unfolding srv_wait_all wait_servers remove_first reap_servers wexitstatus
killed_sum g q own other status elapsed ne a b small =
    let zero_status : 0 + status / 256 % 256 ≡ 0 = grind arith in
    rw (a, b, ne_pid g q ne, eqb_refl (pos g), eqb_refl (pos q), zero_status) refl

-- Server 0 counts a server that a signal ended, whose status is below 256, like one that exited
-- with 0.
pub server_finalize-killed :
    (g q : ℕ) (own other : ServerInfo) (status elapsed local_fail : ℕ) (finalized : ℤ)
    → g ≢ q
    → own.pid ≡ pos g
    → other.pid ≡ pos q
    → status < 256
    → server_finalize
        (record {
          getpid = pos g;
          barrier = pos 0;
          reports = record { pid = pos q; status = status; elapsed = elapsed } ∷ [];
          pmix_server_finalize = finalized;
        })
        (record { my_server_id = 0; servers = other ∷ own ∷ []; hostname = own.hostname })
        local_fail
      ≡ some (pos (local_fail + 0) +ℤ finalized)
unfolding server_finalize add_waited
server_finalize-killed g q own other status elapsed local_fail finalized ne a b small =
    ap (add_waited local_fail finalized) (killed_sum g q own other status elapsed ne a b small)
