-- ===== src/Pmi/Pmi2/Many/Blind.antt =====
-- The result of `test_item10` of unit/pmi2_client.c, for a library whose calls succeed.
use pmix_tests.Base.{ℕ, zero, suc, ◌+◌, ◌/◌, ◌≡◌, refl, ap, ◌∙◌, Option, some, replicate}
use pmix_tests.Base.Int.{ℤ, pos}
use pmix_tests.Base.Text.{CString}
use pmix_tests.Pmi.{
  ◌>>◌, ◌>>=◌, Client, Step, next, check, check_ok, bind-next, note_fatal, returned, rounds,
  random_value,
}
use pmix_tests.Pmi.Pmi2.{Library}
use pmix_tests.Pmi.Pmi2.Many.{
  unexpected, many_key, next_symb, put_keys, check_keys, check_ranks, fence_rounds, fence_check,
  test_item10,
}

-- An item that goes on with a value.
abbrev GoesOn : {L A : Type 0} → A → Step A × Client L → Type 0
GoesOn a run = (c : Client _) × (run ≡ (next a, c))

-- The calls that store keys and read them succeed, whatever they store and answer.
pub record Succeeds {L : Type 0} (lib : Library L) : Type 0 where
  pub put : (key val : CString) (l : L) → (lib.kvs_put key val l).rc ≡ pos 0
  pub fence : (l : L) → (lib.kvs_fence l).rc ≡ pos 0
  pub get :
      (jobid : Option CString) (id : ℤ) (key : CString) (size : ℕ) (l : L)
      → (lib.kvs_get jobid id key size l).rc ≡ pos 0

module _ {L : Type 0} (lib : Library L) (max_vallen val_size : ℕ) (ok : Succeeds lib) where
  put_keys-GoesOn :
      (rank : ℤ) (total n i symb : ℕ) (c : Client L)
      → (s : ℕ) × GoesOn s (put_keys lib max_vallen val_size rank total n i symb c)
  unfolding put_keys
  put_keys-GoesOn rank total zero i symb c = (symb, (c, refl))
  put_keys-GoesOn rank total (suc n) i symb c =
      let put = lib.kvs_put (many_key rank (i + total)) (replicate val_size symb) c.library in
      let after = record c { library = put.after } in
      let (s, (c', e)) = put_keys-GoesOn rank total n (suc i) (next_symb symb) after in
      let step =
        bind-next (λ _. put_keys lib max_vallen val_size rank total n (suc i) (next_symb symb))
          (check put.rc) after after tt (check_ok put.rc after (ok.put _ _ _)) in
      (s, (c', step ∙ e))

  check_keys-GoesOn :
      (jobid : CString) (r n i symb : ℕ) (c : Client L)
      → GoesOn (pos 0) (check_keys lib max_vallen val_size jobid r n i symb (pos 0) c)
  unfolding check_keys
  check_keys-GoesOn jobid r zero i symb c = (c, refl)
  check_keys-GoesOn jobid r (suc n) i symb c =
      let a = lib.kvs_get (some jobid) (pos r) (many_key (pos r) i) max_vallen c.library in
      let new = unexpected lib max_vallen val_size a.out symb in
      let after = record c { library = a.after } in
      let noted = record after { fatal = c.fatal + new } in
      let go = check_keys lib max_vallen val_size jobid r n (suc i) (next_symb symb) in
      let (c', e) = check_keys-GoesOn jobid r n (suc i) (next_symb symb) noted in
      let h = ok.get (some jobid) (pos r) (many_key (pos r) i) max_vallen c.library in
      (
        c',
        bind-next (λ _. note_fatal new >> go a.rc) (check a.rc) after after tt
              (check_ok a.rc after h)
            ∙ ap (λ (rc : ℤ). go rc noted) h
            ∙ e,
      )

  check_ranks-GoesOn :
      (jobid : CString) (total n r : ℕ) (c : Client L)
      → GoesOn (pos 0) (check_ranks lib max_vallen val_size jobid total n r (pos 0) c)
  unfolding check_ranks
  check_ranks-GoesOn jobid total zero r c = (c, refl)
  check_ranks-GoesOn jobid total (suc n) r c =
      let (c1, e1) = check_keys-GoesOn jobid r total 0 b'a' c in
      let (c2, e2) = check_ranks-GoesOn jobid total n (suc r) c1 in
      (
        c2,
        bind-next (check_ranks lib max_vallen val_size jobid total n (suc r))
              (check_keys lib max_vallen val_size jobid r total 0 b'a' (pos 0)) c c1 (pos 0) e1
            ∙ e2,
      )

  fence_check-GoesOn :
      (jobid : CString) (size total : ℕ) (c : Client L)
      → GoesOn (pos 0) (fence_check lib max_vallen val_size jobid size total c)
  unfolding fence_check
  fence_check-GoesOn jobid size total c =
      let fence = lib.kvs_fence c.library in
      let after = record c { library = fence.after } in
      let (c', e) = check_ranks-GoesOn jobid total size 0 after in
      (
        c',
        bind-next (λ _. check_ranks lib max_vallen val_size jobid total size 0 fence.rc)
              (check fence.rc) after after tt (check_ok fence.rc after (ok.fence _))
            ∙ ap (λ (rc : ℤ). check_ranks lib max_vallen val_size jobid total size 0 rc after)
                (ok.fence c.library)
            ∙ e,
      )

  fence_rounds-GoesOn :
      (per n total symb : ℕ) (c : Client L)
      → GoesOn (pos 0) (fence_rounds lib max_vallen val_size per n total symb (pos 0) c)
  unfolding fence_rounds
  fence_rounds-GoesOn per zero total symb c = (c, refl)
  fence_rounds-GoesOn per (suc n) total symb c =
      let size = rounds c.job.size in
      let (s, (c1, e1)) = put_keys-GoesOn c.job.rank total per 0 symb c in
      let (c2, e2) = fence_check-GoesOn c.jobid size (total + per) c1 in
      let (c3, e3) = fence_rounds-GoesOn per n (total + per) s c2 in
      (
        c3,
        bind-next
              (λ symb. fence_check lib max_vallen val_size c.jobid size (total + per) >>= λ rc.
                fence_rounds lib max_vallen val_size per n (total + per) symb rc)
              (put_keys lib max_vallen val_size c.job.rank total per 0 symb) c c1 s e1
            ∙ bind-next (fence_rounds lib max_vallen val_size per n (total + per) s)
                (fence_check lib max_vallen val_size c.jobid size (total + per)) c1 c2 (pos 0) e2
            ∙ e3,
      )

-- With a library whose Puts, Fences and Gets succeed, test_item10 returns 0, whatever the Gets
-- store.
pub test_item10-passes :
    {L : Type 0} (lib : Library L) (max_vallen : ℕ) (id_null : ℤ) (file : CString) (rand : ℕ)
    → Succeeds lib
    → (c : Client L) → (returned (test_item10 lib max_vallen id_null file rand c)).0 ≡ pos 0
unfolding test_item10
test_item10-passes lib max_vallen id_null file rand ok c =
    let (c', e) =
      fence_rounds-GoesOn lib max_vallen (random_value rand 10 (max_vallen / 10)) ok 50 5 0 b'a'
        c in
    ap (λ (run : Step ℤ × Client _). (returned run).0) e
