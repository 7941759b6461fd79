-- ===== src/Server/Launch/Maps.antt =====
-- The task maps of the servers of unit/test_server.c after `server_launch_clients` has made an
-- entry on each of them, and what becomes of a map into which the others are merged.
use pmix_tests.Base.{
  ℕ, zero, suc, ◌+◌, ◌-◌, ◌≤◌, ◌<◌, ◌≡◌, ◌≢◌, refl, ap, ◌∙◌, ◌⊎◌, inl, inr, Bool, true, false, ◌||◌,
  Option, none, some, List, [], ◌∷◌, arith, ◌==◌, ==_refl, ltb, if◌then◌else◌, get_elem?,
  Bool-cases,
}
use pmix_tests.Base.Text.{CString}
use pmix_tests.Server.Shares.{
  lsize, base_rank, Owned, base_rank_tiles, base_rank_mono, owner_unique, compare_cases,
}
use pmix_tests.Server.Procs.{ServerNspace}
use pmix_tests.Server.Procs.Ranks.{merge_rank, merge_map}
use pmix_tests.Server.Launch.{share_map}

share_inside :
    (before n after id r : ℕ)
    → before ≤ r
    → r < before + n
    → get_elem? (share_map before n after id) r ≡ some (some id)
share_inside zero zero after id r lo hi = absurd (omega arith)
share_inside zero (suc n) after id zero lo hi = refl
share_inside zero (suc n) after id (suc r) lo hi =
    share_inside zero n after id r (omega arith) (omega arith)
share_inside (suc b) n after id zero lo hi = absurd (omega arith)
share_inside (suc b) n after id (suc r) lo hi =
    share_inside b n after id r (omega arith) (omega arith)

share_outside :
    (before n after id r : ℕ)
    → (r < before) ⊎ (before + n ≤ r)
    → r < before + (n + after)
    → get_elem? (share_map before n after id) r ≡ some none
share_outside zero zero zero id r out h = absurd (omega arith)
share_outside zero zero (suc after) id zero out h = refl
share_outside zero zero (suc after) id (suc r) out h =
    share_outside zero zero after id r (inr (omega arith)) (omega arith)
share_outside zero (suc n) after id zero out h = absurd (grind arith)
share_outside zero (suc n) after id (suc r) out h =
    share_outside zero n after id r (inr (grind arith)) (omega arith)
share_outside (suc b) n after id zero out h = refl
share_outside (suc b) n after id (suc r) out h =
    share_outside b n after id r (grind arith) (omega arith)

get_elem?-merge_map :
    (id : ℕ) (src dst : List (Option ℕ)) (r : ℕ) (t d : Option ℕ)
    → get_elem? src r ≡ some t
    → get_elem? dst r ≡ some d
    → get_elem? (merge_map id src dst) r ≡ some (merge_rank id t d)
get_elem?-merge_map id [] dst r t d s e = cc
get_elem?-merge_map id (x ∷ xs) [] r t d s e = cc
get_elem?-merge_map id (x ∷ xs) (y ∷ ys) zero t d s e = cc
get_elem?-merge_map id (x ∷ xs) (y ∷ ys) (suc r) t d s e = get_elem?-merge_map id xs ys r t d s e

merge_value_same :
    (i o : ℕ) → (i == o) ≡ true → merge_rank i (if i == o then some o else none) none ≡ some o
merge_value_same i o s = let same : i ≡ o = ground arith in rw (s, same) (rw (==_refl o) refl)

merge_value_other :
    (i o : ℕ) → (i == o) ≡ false → merge_rank i (if i == o then some o else none) none ≡ none
merge_value_other i o s = rw s refl

abbrev pub has_id : ℕ → List ℕ → Bool
has_id o [] = false
has_id o (i ∷ is) = (i == o) || has_id o is

module _ (name : CString) (nprocs nservers : ℕ) where
  -- The entry that server `i` makes for its share of the job.
  abbrev pub entry : ℕ → ServerNspace
  entry i =
      let base = base_rank nprocs nservers i in
      let size = lsize nprocs nservers i in
      record {
        name = name;
        ntasks = nprocs;
        ltasks = size;
        task_map = share_map base size (nprocs - (base + size)) i;
      }

  pub share_end :
      (i : ℕ) → i < nservers → base_rank nprocs nservers i + lsize nprocs nservers i ≤ nprocs
  share_end i h =
      let (_, next, total) = base_rank_tiles nprocs nservers i (omega arith) in
      let e : (nservers - suc i) + suc i ≡ nservers = omega arith in
      omega
        (arith, next, total, rw e at (base_rank_mono nprocs nservers (nservers - suc i) (suc i)))

  -- The map after the entries of these servers have been merged into it.
  abbrev pub merged : List ℕ → List (Option ℕ) → List (Option ℕ)
  merged [] m = m
  merged (i ∷ is) m = merged is (merge_map i (entry i).task_map m)

  in_map :
      (i r : ℕ)
      → r < nprocs
      → r
        < base_rank nprocs nservers i
          + (lsize nprocs nservers i
              + (nprocs - (base_rank nprocs nservers i + lsize nprocs nservers i)))
  in_map i r h = omega arith

  entry_own : (o r : ℕ) → Owned nprocs nservers r o → get_elem? (entry o).task_map r ≡ some (some o)
  entry_own o r (lo, hi) =
      let base = base_rank nprocs nservers o in
      let size = lsize nprocs nservers o in
      share_inside base size (nprocs - (base + size)) o r lo hi

  outside_share :
      (i o r : ℕ)
      → Owned nprocs nservers r o
      → i ≢ o
      → (r < base_rank nprocs nservers i)
        ⊎ (base_rank nprocs nservers i + lsize nprocs nservers i ≤ r)
  outside_share i o r own n = elim (Bool-cases (ltb r (base_rank nprocs nservers i))) [
    | inl e ↦ inl (ground arith)
    | inr e ↦ elim (Bool-cases (ltb r (base_rank nprocs nservers i + lsize nprocs nservers i))) [
      | inr f ↦ inr (ground arith)
      | inl f ↦ elim (compare_cases i o) [
        | inl same ↦ absurd (n same)
        | inr (inl below) ↦
            absurd (owner_unique nprocs nservers r i o (ground arith, ground arith) own below)
        | inr (inr above) ↦
            absurd (owner_unique nprocs nservers r o i own (ground arith, ground arith) above)
      ]
    ]
  ]

  entry_other :
      (i o r : ℕ)
      → r < nprocs
      → Owned nprocs nservers r o
      → i ≢ o
      → get_elem? (entry i).task_map r ≡ some none
  entry_other i o r h own n =
      let base = base_rank nprocs nservers i in
      let size = lsize nprocs nservers i in
      share_outside base size (nprocs - (base + size)) i r (outside_share i o r own n)
        (in_map i r h)

  entry_at :
      (i o r : ℕ)
      → r < nprocs
      → Owned nprocs nservers r o
      → get_elem? (entry i).task_map r ≡ some (if i == o then some o else none)
  entry_at i o r h own = elim (Bool-cases (i == o)) [
    | inl e ↦ let same : i ≡ o = ground arith in rw (e, same) (entry_own o r own)
    | inr e ↦ rw e (entry_other i o r h own (λ same. ground arith))
  ]

  -- A rank that has found its server keeps it.
  merged_kept :
      (is : List ℕ) (m : List (Option ℕ)) (o r : ℕ)
      → r < nprocs
      → Owned nprocs nservers r o
      → get_elem? m r ≡ some (some o)
      → get_elem? (merged is m) r ≡ some (some o)
  merged_kept [] m o r h own e = e
  merged_kept (i ∷ is) m o r h own e =
      merged_kept is (merge_map i (entry i).task_map m) o r h own
        (get_elem?-merge_map i (entry i).task_map m r _ (some o) (entry_at i o r h own) e)

  merged_found :
      (is : List ℕ) (m : List (Option ℕ)) (o r : ℕ)
      → r < nprocs
      → Owned nprocs nservers r o
      → get_elem? m r ≡ some none
      → has_id o is ≡ true
      → get_elem? (merged is m) r ≡ some (some o)
  merged_found [] m o r h own e f = cc
  merged_found (i ∷ is) m o r h own e f =
      let step = get_elem?-merge_map i (entry i).task_map m r _ none (entry_at i o r h own) e in
      elim (Bool-cases (i == o)) [
        | inl s ↦
            merged_kept is (merge_map i (entry i).task_map m) o r h own
              (step ∙ ap some (merge_value_same i o s))
        | inr s ↦
            merged_found is (merge_map i (entry i).task_map m) o r h own
              (step ∙ ap some (merge_value_other i o s)) (ground arith)
      ]

  pub start_found :
      (self o r : ℕ) (is : List ℕ)
      → r < nprocs
      → Owned nprocs nservers r o
      → has_id o (self ∷ is) ≡ true
      → get_elem? (merged is (entry self).task_map) r ≡ some (some o)
  start_found self o r is h own among =
      let at_start = entry_at self o r h own in
      elim (Bool-cases (self == o)) [
        | inl s ↦ merged_kept is (entry self).task_map o r h own (rw s at at_start)
        | inr s ↦ merged_found is (entry self).task_map o r h own (rw s at at_start) (ground arith)
      ]
