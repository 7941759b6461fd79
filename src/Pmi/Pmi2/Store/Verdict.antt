-- ===== src/Pmi/Pmi2/Store/Verdict.antt =====
-- What `test_item7`, `test_item8` and `test_item9` of unit/pmi2_client.c make of the values they get.
use pmix_tests.Base.{
  ℕ, zero, suc, ◌+◌, ◌<◌, ◌≡◌, refl, ap, ◌∙◌, ◌↔◌, true, false, some, arith, length, ◌≤◌,
  if◌then◌else◌, ◌==◌, Bool-cases, inl, inr,
}
use pmix_tests.Base.Int.{ℤ, pos, negsuc, eqb, eqb_iff}
use pmix_tests.Base.Text.{CString, str_eq, str_eq_iff}
use pmix_tests.Pmi.{
  Client, next, Answer, returned, bind-next, check, check_ok, rounds, key_of, value_of,
}
use pmix_tests.Pmi.Pmi2.{Library}
use pmix_tests.Pmi.Pmi2.Store.{
  put_if, get_all, fence_get, put_loop, get_loop, put_fence_get, test_item7,
}

-- How many of the two comparisons of an item fail.
abbrev pub mismatches : CString → CString × ℤ → ℕ
mismatches value out =
    (if eqb (pos (length value)) out.1 then 0 else 1) + (if str_eq value out.0 then 0 else 1)

-- A value with its length.
abbrev pub IsStored : CString → CString × ℤ → Type 0
IsStored value out = (value ≡ out.0) × (pos (length value) ≡ out.1)

mismatches_none :
    (value : CString) (out : CString × ℤ) → (mismatches value out ≡ 0) ↔ IsStored value out
mismatches_none value out =
    ground (arith, eqb_iff (pos (length value)) out.1, str_eq_iff value out.0)

module _ {L : Type 0} (lib : Library L) (max_vallen : ℕ) (id_null : ℤ) where
  -- When the Put, the Fence and the Get succeed, test_item7 returns 0 whatever value the Get
  -- stores; it logs a fatal message for each of the two comparisons that fail.
  pub test_item7-passes :
      (c : Client L)
      → let put = lib.kvs_put (key_of c.job.rank) (value_of c.job.rank) c.library in
        let fence = lib.kvs_fence put.after in
        let got =
          lib.kvs_get (some c.jobid) c.job.rank (key_of c.job.rank) max_vallen fence.after in
        put.rc ≡ pos 0
        → fence.rc ≡ pos 0
        → got.rc ≡ pos 0
        → let ended = returned (test_item7 lib max_vallen id_null c) in
          (ended.0 ≡ pos 0) × (ended.1.fatal ≡ c.fatal + mismatches (value_of c.job.rank) got.out)
  unfolding test_item7
  test_item7-passes c hp hf hg = ground arith

  module _ (id : ℤ → ℤ) (jobid : CString) where
    abbrev pub answer : ℕ → L → Answer L (CString × ℤ)
    answer i l = lib.kvs_get (some jobid) (id (pos i)) (key_of (pos i)) max_vallen l

    -- `n` Gets from `i` on succeed, one after the other.
    abbrev pub GetsSucceed : ℕ → ℕ → L → Type 0
    GetsSucceed zero i l = Unit
    GetsSucceed (suc n) i l = ((answer i l).rc ≡ pos 0) × GetsSucceed n (suc i) (answer i l).after

    -- What the last of `suc n` Gets from `i` on stores.
    abbrev pub last_stored : ℕ → ℕ → L → CString × ℤ
    last_stored zero i l = (answer i l).out
    last_stored (suc n) i l = last_stored n (suc i) (answer i l).after

    -- The comparisons that fail in `n` Gets from `i` on.
    abbrev pub all_mismatches : ℕ → ℕ → L → ℕ
    all_mismatches zero i l = 0
    all_mismatches (suc n) i l =
        mismatches (value_of (pos i)) (answer i l).out + all_mismatches n (suc i) (answer i l).after

    abbrev verdict : ℕ → L → ℤ
    verdict i l = if mismatches (value_of (pos i)) (answer i l).out == 0 then pos 0 else negsuc 0

    abbrev after_round : ℕ → Client L → Client L
    after_round i c = record c {
      fatal = c.fatal + mismatches (value_of (pos i)) (answer i c.library).out;
      library = (answer i c.library).after;
    }

    get_loop-round :
        (n i : ℕ) (rc : ℤ) (c : Client L)
        → (answer i c.library).rc ≡ pos 0
        → get_loop lib max_vallen id_null id jobid (suc n) i rc c
          ≡ get_loop lib max_vallen id_null id jobid n
              (suc i)
              (verdict i c.library)
              (after_round i c)
    unfolding get_loop
    get_loop-round n i rc c h = ground arith

    get_loop-last :
        (n i j : ℕ) (rc : ℤ) (c : Client L)
        → n + i ≡ j
        → GetsSucceed (suc n) i c.library
        → let ended = returned (get_loop lib max_vallen id_null id jobid (suc n) i rc c) in
          ((ended.0 ≡ pos 0) ↔ IsStored (value_of (pos j)) (last_stored n i c.library))
          × (ended.1.fatal ≡ c.fatal + all_mismatches (suc n) i c.library)
    get_loop-last zero i j rc c e h =
        let e' : i ≡ j = omega arith in
        rw (get_loop-round zero i rc c h.0, ← e')
          (unfold get_loop in
            ground (arith, mismatches_none (value_of (pos i)) (answer i c.library).out))
    get_loop-last (suc n) i j rc c e h =
        rw (get_loop-round (suc n) i rc c h.0) ground (
          arith,
          get_loop-last n (suc i) j (verdict i c.library) (after_round i c) (omega arith) h.1,
        )

  abbrev pub put_own : ℤ → Client L → Answer L (Unit {0})
  put_own rank c = lib.kvs_put (key_of rank) (value_of rank) c.library

  put_loop-behind :
      (r n i : ℕ) (rc : ℤ) (c : Client L)
      → r < i
      → put_loop lib max_vallen id_null (pos r) n i rc c ≡ (next rc, c)
  unfolding put_loop
  put_loop-behind r zero i rc c h = refl
  put_loop-behind r (suc n) i rc c h =
      let e : eqb (pos i) (pos r) ≡ false = ground arith in
      rw e (put_loop-behind r n (suc i) rc c (omega arith))

  put_if-own :
      (r : ℕ) (rc : ℤ) (c : Client L)
      → (put_own (pos r) c).rc ≡ pos 0
      → put_if lib max_vallen id_null true (pos r) rc c
        ≡ (next (pos 0), record c { library = (put_own (pos r) c).after })
  put_if-own r rc c h = ground arith

  put_loop-own :
      (r n i : ℕ) (rc : ℤ) (c : Client L)
      → i ≤ r
      → r < i + n
      → (put_own (pos r) c).rc ≡ pos 0
      → put_loop lib max_vallen id_null (pos r) n i rc c
        ≡ (next (pos 0), record c { library = (put_own (pos r) c).after })
  unfolding put_loop
  put_loop-own r zero i rc c lo hi h = absurd (omega arith)
  put_loop-own r (suc n) i rc c lo hi h = elim (Bool-cases (i == r)) [
    | inl e ↦
        let e' : r ≡ i = ground arith in
        let put = record c { library = (put_own (pos r) c).after } in
        rw (e, ← e')
          (bind-next (put_loop lib max_vallen id_null (pos r) n (suc r))
              (put_if lib max_vallen id_null true (pos r) rc) c put (pos 0) (put_if-own r rc c h)
            ∙ put_loop-behind r n (suc r) (pos 0) put (omega arith))
    | inr e ↦ rw e (put_loop-own r n (suc i) rc c (ground arith) (omega arith) h)
  ]

  module _ (id : ℤ → ℤ) (n r : ℕ) (c : Client L) (hs : c.job.size ≡ pos (suc n))
      (hr : c.job.rank ≡ pos r) where
    abbrev pub fenced : Answer L (Unit {0})
    fenced = lib.kvs_fence (put_own (pos r) c).after

    put_fence_get-gets :
        r ≤ n
        → (put_own (pos r) c).rc ≡ pos 0
        → fenced.rc ≡ pos 0
        → put_fence_get lib max_vallen id_null id c
          ≡ get_loop lib max_vallen id_null id c.jobid
              (suc n)
              0
              (pos 0)
              (record c { library = fenced.after })
    unfolding put_fence_get
    put_fence_get-gets le hp hf =
        let put = record c { library = (put_own (pos r) c).after } in
        let after = record c { library = fenced.after } in
        let own : put_loop lib max_vallen id_null c.job.rank (rounds c.job.size) 0 (pos 0) c
            ≡ (next (pos 0), put) =
          ap (λ (k : ℤ). put_loop lib max_vallen id_null k (rounds c.job.size) 0 (pos 0) c) hr
          ∙ ap (λ (k : ℤ). put_loop lib max_vallen id_null (pos r) (rounds k) 0 (pos 0) c) hs
          ∙ put_loop-own r (suc n) 0 (pos 0) c (omega arith) (omega arith) hp in
        bind-next (λ _. fence_get lib max_vallen id_null id c.job.size)
          (put_loop lib max_vallen id_null c.job.rank (rounds c.job.size) 0 (pos 0)) c put (pos 0)
          own
        ∙ bind-next (λ _. get_all lib max_vallen id_null id c.job.size fenced.rc) (check fenced.rc)
            after after tt (check_ok fenced.rc after hf)
        ∙ ap (λ (k : ℤ). get_loop lib max_vallen id_null id c.jobid (rounds k) 0 fenced.rc after) hs
        ∙ ap (λ (k : ℤ). get_loop lib max_vallen id_null id c.jobid (suc n) 0 k after) hf

    -- For a client whose rank is one of the job's, whose Put and Fence succeed, and with which every
    -- Get succeeds: test_item8 and test_item9 return 0 exactly when the Get for the last rank stored
    -- the value and the length of that rank, whatever the other Gets stored; the comparisons that
    -- fail are logged for every rank.
    pub put_fence_get-last :
        r ≤ n
        → (put_own (pos r) c).rc ≡ pos 0
        → fenced.rc ≡ pos 0
        → GetsSucceed id c.jobid (suc n) 0 fenced.after
        → let ended = returned (put_fence_get lib max_vallen id_null id c) in
          ((ended.0 ≡ pos 0)
            ↔ IsStored (value_of (pos n)) (last_stored id c.jobid n 0 fenced.after))
          × (ended.1.fatal ≡ c.fatal + all_mismatches id c.jobid (suc n) 0 fenced.after)
    put_fence_get-last le hp hf hg = rw (put_fence_get-gets le hp hf) (
        get_loop-last id c.jobid n 0 n (pos 0) (record c { library = fenced.after }) (omega arith)
          hg)
