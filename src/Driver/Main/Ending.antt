-- ===== src/Driver/Main/Ending.antt =====
-- What it means that `server_finalize` of unit/test_server.c, which `main` of unit/pmix_test.c calls
-- last, leaves the count of failures at 0.
use pmix_tests.Base.{
  ℕ, ◌+◌, ◌≡◌, refl, Bool, true, false, not, some, ◌==◌, arith, if◌then◌else◌, Run, ok, fault,
  out_of_fuel, ◌>>=◌,
}
use pmix_tests.Base.Int.{ℤ, pos, eqb, ◌+ℤ◌}
use pmix_tests.Server.Start.{
  ServerInfo, Started, WaitEnd, waited, blocked, srv_wait_all, add_waited, server_finalize,
}
use pmix_tests.Driver.Main.{Env, returns, Hang, over, hang_exits, hang_waits, returns_total, finish}
use mathlib.Core.List.{List}

fault_ne : {B : Type 0} (b : B) → fault ≡ ok b → ⊥
fault_ne b h = grind arith

no_fuel_ne : {B : Type 0} (b : B) → out_of_fuel ≡ ok b → ⊥
no_fuel_ne b h = grind arith

pub bind-inverse :
    {A B : Type 0} (run : Run A) (next : A → Run B) (b : B)
    → (run >>= next) ≡ ok b
    → (a : A) × (run ≡ ok a) × (next a ≡ ok b)
bind-inverse (ok a) next b h = (a, refl, h)
bind-inverse fault next b h = absurd (fault_ne b h)
bind-inverse out_of_fuel next b h = absurd (no_fuel_ne b h)

eqb-pos0 : (a : ℤ) → eqb a (pos 0) ≡ true → a ≡ pos 0
eqb-pos0 a h = ground arith

-- The end of the servers went well: the barrier did, and server 0 saw no failing server.
pub record EndWell (e : Env) (s : Started) : Type 0 where
  pub barrier : e.finalize.barrier ≡ pos 0
  pub servers :
      (s.my_server_id == 0) ≡ true
      → (left : List ServerInfo) × (srv_wait_all 10000000 e.finalize.getpid e.finalize.reports
            s.servers
          ≡ waited left 0)

total_zero :
    (fails : ℕ) (w : WaitEnd)
    → returns_total fails (add_waited fails (pos 0) w) ≡ returns (pos 0)
    → (fails ≡ 0) × ((left : List ServerInfo) × (w ≡ waited left 0))
unfolding add_waited
total_zero fails (waited left ret) h =
    let sum : fails + (fails + ret + 0) ≡ 0 = ground arith in
    let z : ret ≡ 0 = omega (arith, sum) in (omega (arith, sum), (left, rw z refl))
total_zero fails blocked h = absurd (ground arith)

-- The branches of `server_finalize`.
branches_zero :
    (barrier_ok first : Bool) (fails : ℕ) (w : WaitEnd)
    → returns_total fails (
        if not barrier_ok
        then some (pos (fails + 1))
        else if first
        then add_waited fails (pos 0) w
        else some (pos fails +ℤ pos 0))
      ≡ returns (pos 0)
    → (fails ≡ 0)
      × (barrier_ok ≡ true)
      × (first ≡ true → (left : List ServerInfo) × (w ≡ waited left 0))
branches_zero false first fails w h = absurd (ground arith)
branches_zero true true fails w h = let (z, k) = total_zero fails w h in (z, refl, λ _. k)
branches_zero true false fails w h = (ground arith, refl, λ c. absurd (grind arith))

finalize-zero :
    (e : Env) (s : Started) (fails : ℕ)
    → e.finalize.pmix_server_finalize ≡ pos 0
    → returns_total fails (server_finalize e.finalize s fails) ≡ returns (pos 0)
    → (fails ≡ 0) × EndWell e s
unfolding server_finalize
finalize-zero e s fails f h =
    let w = srv_wait_all 10000000 e.finalize.getpid e.finalize.reports s.servers in
    let (z, b, k) =
      branches_zero (eqb e.finalize.barrier (pos 0)) (s.my_server_id == 0) fails w (rw f at h) in
    (z, record { barrier = eqb-pos0 e.finalize.barrier b; servers = k })

pub finish-zero :
    (e : Env) (s : Started) (fails : ℕ) {V : Type 0} (hang : Hang V)
    → e.finalize.pmix_server_finalize ≡ pos 0
    → finish e s fails hang ≡ returns (pos 0)
    → (fails ≡ 0) × EndWell e s
unfolding finish
finish-zero e s fails (over h) f k = finalize-zero e s fails f k
finish-zero e s fails hang_exits f k = absurd (grind arith)
finish-zero e s fails hang_waits f k = absurd (grind arith)
