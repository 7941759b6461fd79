-- ===== src/Server/Shares.antt =====
-- How the processes of the job are shared among the servers: `params->lsize` in `server_init` of
-- unit/test_server.c, and the loop for `base_rank` in `main` of unit/pmix_test.c.
use native.Mathlib.Nat.{zero-add, le_refl}
use pmix_tests.Base.{
  ℕ, zero, suc, ◌+◌, ◌*◌, ◌/◌, ◌%◌, ◌≤◌, ◌<◌, ◌≡◌, ap, ◌∙◌, ◌⊎◌, inl, inr, Bool-cases, ◌-◌, arith,
  ltb, if◌then◌else◌,
}

-- The number of processes of server `id`. The numbers are `uint32_t`, and the sum with 1 does not
-- wrap, since it is at most `nprocs`.
unfoldable pub lsize : ℕ → ℕ → ℕ → ℕ
lsize nprocs nservers id =
    if ltb id (nprocs % nservers) then nprocs / nservers + 1 else nprocs / nservers

-- The loop `for(i = 0; i < my_server_id; i++) base_rank += ...`, from round `i` for `rounds` rounds.
unfoldable pub base_loop : ℕ → ℕ → ℕ → ℕ → ℕ → ℕ
base_loop nprocs nservers zero i base = base
base_loop nprocs nservers (suc rounds) i base =
    base_loop nprocs nservers rounds (suc i) (base + lsize nprocs nservers i)

unfoldable pub base_rank : ℕ → ℕ → ℕ → ℕ
base_rank nprocs nservers id = base_loop nprocs nservers id 0 0

-- The closed form: the first `nprocs % nservers` servers have one process more.
spread : ℕ → ℕ → ℕ → ℕ
spread q r id = id * q + (if ltb id r then id else r)

spread-suc : (q r id : ℕ) → spread q r (suc id) ≡ spread q r id + (if ltb id r then q + 1 else q)
unfolding spread
spread-suc q r id = ground arith

pub compare_cases : (a b : ℕ) → (a ≡ b) ⊎ ((a < b) ⊎ (b < a))
compare_cases a b = grind arith

module _ (nprocs nservers : ℕ) where
  base_loop-spread :
      (rounds i base : ℕ)
      → base_loop nprocs nservers rounds i base + spread (nprocs / nservers) (nprocs % nservers) i
        ≡ base + spread (nprocs / nservers) (nprocs % nservers) (rounds + i)
  unfolding base_loop lsize
  base_loop-spread zero i base =
      ap (λ k. base + spread (nprocs / nservers) (nprocs % nservers) k) (omega arith)
  base_loop-spread (suc rounds) i base =
      let e : suc rounds + i ≡ rounds + suc i = omega arith in
      rw e (
        omega (
          arith,
          base_loop-spread rounds (suc i) (base + lsize nprocs nservers i),
          spread-suc (nprocs / nservers) (nprocs % nservers) i,
        ))

  base_rank-spread :
      (id : ℕ) → base_rank nprocs nservers id ≡ spread (nprocs / nservers) (nprocs % nservers) id
  unfolding base_rank
  base_rank-spread id =
      let z : spread (nprocs / nservers) (nprocs % nservers) 0 ≡ 0 =
        unfold spread in ground arith in
      let e : id + 0 ≡ id = omega arith in omega (arith, rw e at (base_loop-spread id 0 0), z)

  base_rank-suc :
      (id : ℕ)
      → base_rank nprocs nservers (suc id) ≡ base_rank nprocs nservers id + lsize nprocs nservers id
  base_rank-suc id =
      base_rank-spread (suc id)
      ∙ unfold lsize in
        omega (arith, base_rank-spread id, spread-suc (nprocs / nservers) (nprocs % nservers) id)

  -- Server `id` holds the ranks from its base rank on; the next server's base rank is where they
  -- end, and the ranks of all the servers are those of the job.
  pub base_rank_tiles :
      (id : ℕ)
      → 0 < nservers
      → (base_rank nprocs nservers 0 ≡ 0)
        × (base_rank nprocs nservers (suc id)
            ≡ base_rank nprocs nservers id + lsize nprocs nservers id)
        × (base_rank nprocs nservers nservers ≡ nprocs)
  base_rank_tiles id h = (
    base_rank-spread 0 ∙ unfold spread in ground arith,
    base_rank-suc id,
    base_rank-spread nservers ∙ unfold spread in grind arith,
  )

  -- The servers' shares differ by one process at most.
  pub lsize_balanced : (i j : ℕ) → lsize nprocs nservers i ≤ lsize nprocs nservers j + 1
  unfolding lsize
  lsize_balanced i j = ground arith

  abbrev pub Owned : ℕ → ℕ → Type 0
  Owned r id =
      (base_rank nprocs nservers id ≤ r)
      × (r < base_rank nprocs nservers id + lsize nprocs nservers id)

  owner_below :
      (k r : ℕ)
      → base_rank nprocs nservers 0 ≡ 0
      → r < base_rank nprocs nservers k
      → (id : ℕ) × (id < k) × Owned r id
  owner_below zero r z h = absurd (omega arith)
  owner_below (suc k) r z h = elim (Bool-cases (ltb r (base_rank nprocs nservers k))) [
    | inl e ↦ let (id, lt, o) = owner_below k r z (ground arith) in (id, omega arith, o)
    | inr e ↦ (k, omega arith, (ground arith, omega (arith, base_rank-suc k)))
  ]

  pub base_rank_mono :
      (d id : ℕ) → base_rank nprocs nservers id ≤ base_rank nprocs nservers (d + id)
  base_rank_mono zero id = rw (zero-add id) (le_refl _)
  base_rank_mono (suc d) id =
      let e : suc d + id ≡ suc (d + id) = omega arith in
      rw e (omega (arith, base_rank_mono d id, base_rank-suc (d + id)))

  pub owner_unique : (r i j : ℕ) → Owned r i → Owned r j → i < j → ⊥
  owner_unique r i j a b lt =
      let e : (j - suc i) + suc i ≡ j = omega arith in
      omega (arith, a, b, base_rank-suc i, rw e at (base_rank_mono (j - suc i) (suc i)))

  -- Every rank of the job is in the share of some server, and in no other server's share.
  pub lsize_owner :
      (r j : ℕ)
      → 0 < nservers
      → r < nprocs
      → (id : ℕ) × (id < nservers) × Owned r id × ((j ≡ id) ⊎ (¬ (Owned r j)))
  lsize_owner r j h lt =
      let (z, _, total) = base_rank_tiles 0 h in
      let (id, below, o) = owner_below nservers r z (rw total lt) in
      (
        id,
        below,
        o,
        elim (compare_cases j id) [
          | inl e ↦ inl e
          | inr (inl l) ↦ inr (λ p. owner_unique r j id p o l)
          | inr (inr g) ↦ inr (λ p. owner_unique r id j o p g)
        ],
      )
