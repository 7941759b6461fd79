-- ===== src/Pmi/Pmi2/Many/Symbols.antt =====
-- The bytes that `test_item10` of unit/pmi2_client.c puts and expects.
use pmix_tests.Base.{
  ℕ, zero, suc, ◌<◌, ◌*◌, ◌-◌, ◌==◌, if◌then◌else◌, [], ◌+◌, ◌%◌, ◌≡◌, refl, ap, ◌∙◌, some, arith,
  replicate,
}
use pmix_tests.Base.Int.{ℤ, pos}
use pmix_tests.Base.Text.{CString}
use pmix_tests.Pmi.{
  ◌>>◌, ◌>>=◌, Client, next, Answer, check, check_ok, bind-next, note_fatal, rounds,
}
use pmix_tests.Pmi.Pmi2.{Library}
use pmix_tests.Pmi.Pmi2.Many.{
  unexpected, many_key, next_symb, differing, put_keys, check_keys, check_ranks, fence_rounds,
  fence_check,
}

-- The letter of key `k`: the alphabet, again and again.
abbrev pub symbol : ℕ → ℕ
symbol k = 97 + k % 26

abbrev pub many_value : ℕ → ℕ → CString
many_value val_size k = replicate val_size (symbol k)

next_symb-symbol : (k : ℕ) → next_symb (symbol k) ≡ symbol (suc k)
unfolding next_symb
next_symb-symbol k = ground arith

-- The messages about a value of `n` letters where `val_size` are expected: one about its length, and
-- one about each letter that is missing.
abbrev pub missing : ℕ → ℕ → ℕ
missing val_size n = (if n == val_size then 0 else 1) + (val_size - n)

add-times : (a m n : ℕ) → (a + m) + n * m ≡ a + suc n * m
add-times a m n = grind arith

differing-nil : (v s : ℕ) → 0 < s → differing v [] s ≡ v
unfolding differing
differing-nil zero s h = refl
differing-nil (suc v) s h = ground (arith, differing-nil v s h)

differing-replicate : (v n s : ℕ) → 0 < s → differing v (replicate n s) s ≡ v - n
unfolding differing
differing-replicate zero n s h = omega arith
differing-replicate (suc v) zero s h = ground (arith, differing-nil v s h)
differing-replicate (suc v) (suc n) s h = ground (arith, differing-replicate v n s h)

module _ {L : Type 0} (lib : Library L) (max_vallen val_size : ℕ) where
  -- The library after the values of `n` keys from `k` on were put.
  unfoldable pub put_values : ℤ → ℕ → ℕ → L → L
  put_values rank zero k l = l
  put_values rank (suc n) k l =
      put_values rank n (suc k) (lib.kvs_put (many_key rank k) (many_value val_size k) l).after

  unfoldable pub PutsSucceed : ℤ → ℕ → ℕ → L → Type 0
  PutsSucceed rank zero k l = Unit
  PutsSucceed rank (suc n) k l =
      let put = lib.kvs_put (many_key rank k) (many_value val_size k) l in
      (put.rc ≡ pos 0) × PutsSucceed rank n (suc k) put.after

  put_keys-symbols :
      (rank : ℤ) (total n i k j : ℕ) (c : Client L)
      → i + total ≡ k
      → k + n ≡ j
      → PutsSucceed rank n k c.library
      → put_keys lib max_vallen val_size rank total n i (symbol k) c
        ≡ (next (symbol j), record c { library = put_values rank n k c.library })
  unfolding put_keys put_values PutsSucceed
  put_keys-symbols rank total zero i k j c ei ej h =
      let e : k ≡ j = omega arith in ap (λ (m : ℕ). (next (symbol m), c)) e
  put_keys-symbols rank total (suc n) i k j c ei ej h =
      let put = lib.kvs_put (many_key rank k) (many_value val_size k) c.library in
      let after = record c { library = put.after } in
      rw ei (
        bind-next
          (λ _. put_keys lib max_vallen val_size rank total n (suc i) (next_symb (symbol k)))
          (check put.rc) after after tt (check_ok put.rc after h.0)
        ∙ rw (next_symb-symbol k)
            (put_keys-symbols rank total n (suc i) (suc k) j after (omega arith) (omega arith) h.1))

  -- `size_of r` is the size that rank `r` has drawn for its values.
  module _ (size_of : ℕ → ℕ) (jobid : CString) (r : ℕ) where
    abbrev pub answer : ℕ → L → Answer L (CString × ℤ)
    answer i l = lib.kvs_get (some jobid) (pos r) (many_key (pos r) i) max_vallen l

    -- `n` Gets from key `i` on answer what the rank has put.
    unfoldable pub AnswersValues : ℕ → ℕ → L → Type 0
    AnswersValues zero i l = Unit
    AnswersValues (suc n) i l =
        ((answer i l).rc ≡ pos 0)
        × ((answer i l).out.0 ≡ many_value (size_of r) i)
        × ((answer i l).out.1 ≡ pos (size_of r))
        × AnswersValues n (suc i) (answer i l).after

    unfoldable pub after_answers : ℕ → ℕ → L → L
    after_answers zero i l = l
    after_answers (suc n) i l = after_answers n (suc i) (answer i l).after

    check_keys-counts :
        (n i : ℕ) (c : Client L)
        → AnswersValues n i c.library
        → check_keys lib max_vallen val_size jobid r n i (symbol i) (pos 0) c ≡ (
          next (pos 0),
          record c {
            library = after_answers n i c.library;
            fatal = c.fatal + n * missing val_size (size_of r);
          },
        )
    unfolding check_keys AnswersValues after_answers
    check_keys-counts zero i c h =
        ap (λ (f : ℕ). (next (pos 0), record c { fatal = f })) (omega arith)
    check_keys-counts (suc n) i c (h, hv, hl, more) =
        let a = answer i c.library in
        let after = record c { library = a.after } in
        let m = missing val_size (size_of r) in
        let same : differing val_size a.out.0 (symbol i) ≡ val_size - size_of r =
          rw hv (differing-replicate val_size (size_of r) (symbol i) (omega arith)) in
        let new : c.fatal + unexpected lib max_vallen val_size a.out (symbol i) ≡ c.fatal + m =
          rw (hl, same) refl in
        let sum : (c.fatal + m) + n * m ≡ c.fatal + suc n * m = add-times c.fatal m n in
        let go = check_keys lib max_vallen val_size jobid r n (suc i) in
        bind-next
          (λ _.
            note_fatal (unexpected lib max_vallen val_size a.out (symbol i))
            >> go (next_symb (symbol i)) a.rc)
          (check a.rc) after after tt (check_ok a.rc after h)
        ∙ ap (λ (f : ℕ). go (next_symb (symbol i)) a.rc (record after { fatal = f })) new
        ∙ ap (λ (rc : ℤ). go (next_symb (symbol i)) rc (record after { fatal = c.fatal + m })) h
        ∙ ap (λ (s : ℕ). go s (pos 0) (record after { fatal = c.fatal + m })) (next_symb-symbol i)
        ∙ check_keys-counts n (suc i) (record after { fatal = c.fatal + m }) more
        ∙ ap
            (λ (f : ℕ).
              (next (pos 0), record after { library = after_answers n (suc i) a.after; fatal = f }))
            sum

  -- The same for the keys of `n` ranks from `r` on.
  unfoldable pub RanksAnswer : (ℕ → ℕ) → CString → ℕ → ℕ → ℕ → L → Type 0
  RanksAnswer size_of jobid total zero r l = Unit
  RanksAnswer size_of jobid total (suc n) r l =
      AnswersValues size_of jobid r total 0 l
      × RanksAnswer size_of jobid total n (suc r) (after_answers size_of jobid r total 0 l)

  unfoldable pub after_ranks : (ℕ → ℕ) → CString → ℕ → ℕ → ℕ → L → L
  after_ranks size_of jobid total zero r l = l
  after_ranks size_of jobid total (suc n) r l =
      after_ranks size_of jobid total n (suc r) (after_answers size_of jobid r total 0 l)

  -- The messages about `total` keys of each of `n` ranks from `r` on.
  unfoldable pub misses : (ℕ → ℕ) → ℕ → ℕ → ℕ → ℕ
  misses size_of total zero r = 0
  misses size_of total (suc n) r =
      total * missing val_size (size_of r) + misses size_of total n (suc r)

  check_ranks-counts :
      (size_of : ℕ → ℕ) (jobid : CString) (total n r : ℕ) (c : Client L)
      → RanksAnswer size_of jobid total n r c.library
      → check_ranks lib max_vallen val_size jobid total n r (pos 0) c ≡ (
        next (pos 0),
        record c {
          library = after_ranks size_of jobid total n r c.library;
          fatal = c.fatal + misses size_of total n r;
        },
      )
  unfolding check_ranks RanksAnswer after_ranks misses
  check_ranks-counts size_of jobid total zero r c h =
      ap (λ (f : ℕ). (next (pos 0), record c { fatal = f })) (omega arith)
  check_ranks-counts size_of jobid total (suc n) r c (h, more) =
      let one = total * missing val_size (size_of r) in
      let after = record c {
        library = after_answers size_of jobid r total 0 c.library;
        fatal = c.fatal + one;
      } in
      let sum : (c.fatal + one) + misses size_of total n (suc r)
          ≡ c.fatal + (one + misses size_of total n (suc r)) =
        omega arith in
      bind-next (check_ranks lib max_vallen val_size jobid total n (suc r))
        (check_keys lib max_vallen val_size jobid r total 0 b'a' (pos 0)) c after (pos 0)
        (check_keys-counts size_of jobid r total 0 c h)
      ∙ check_ranks-counts size_of jobid total n (suc r) after more
      ∙ ap
          (λ (f : ℕ). (
            next (pos 0),
            record after {
              library = after_ranks size_of jobid total n (suc r) after.library;
              fatal = f;
            },
          ))
          sum

  -- `n` rounds of the outer loop behind `total` keys: the Puts and the Fence of each succeed, and
  -- the Gets answer for every rank what it has put under its keys.
  module _ (size_of : ℕ → ℕ) (jobid : CString) (rank : ℤ) (size keys_per_fence : ℕ) where
    abbrev pub fenced : ℕ → L → Answer L (Unit {0})
    fenced total l = lib.kvs_fence (put_values rank keys_per_fence total l)

    abbrev pub after_fence : ℕ → L → L
    after_fence total l =
        after_ranks size_of jobid (total + keys_per_fence) size 0 (fenced total l).after

    unfoldable pub RoundsAnswer : ℕ → ℕ → L → Type 0
    RoundsAnswer zero total l = Unit
    RoundsAnswer (suc n) total l =
        PutsSucceed rank keys_per_fence total l
        × ((fenced total l).rc ≡ pos 0)
        × RanksAnswer size_of jobid (total + keys_per_fence) size 0 (fenced total l).after
        × RoundsAnswer n (total + keys_per_fence) (after_fence total l)

    unfoldable pub after_rounds : ℕ → ℕ → L → L
    after_rounds zero total l = l
    after_rounds (suc n) total l = after_rounds n (total + keys_per_fence) (after_fence total l)

  -- The messages of `n` rounds.
  unfoldable pub all_misses : (ℕ → ℕ) → ℕ → ℕ → ℕ → ℕ → ℕ
  all_misses size_of size keys_per_fence zero total = 0
  all_misses size_of size keys_per_fence (suc n) total =
      misses size_of (total + keys_per_fence) size 0
      + all_misses size_of size keys_per_fence n (total + keys_per_fence)

  fence_check-counts :
      (size_of : ℕ → ℕ) (jobid : CString) (size total : ℕ) (c : Client L)
      → (lib.kvs_fence c.library).rc ≡ pos 0
      → RanksAnswer size_of jobid total size 0 (lib.kvs_fence c.library).after
      → fence_check lib max_vallen val_size jobid size total c ≡ (
        next (pos 0),
        record c {
          library = after_ranks size_of jobid total size 0 (lib.kvs_fence c.library).after;
          fatal = c.fatal + misses size_of total size 0;
        },
      )
  unfolding fence_check
  fence_check-counts size_of jobid size total c hf hr =
      let fence = lib.kvs_fence c.library in
      let after = record c { library = fence.after } in
      bind-next (λ _. check_ranks lib max_vallen val_size jobid total size 0 fence.rc)
        (check fence.rc) after after tt (check_ok fence.rc after hf)
      ∙ ap (λ (rc : ℤ). check_ranks lib max_vallen val_size jobid total size 0 rc after) hf
      ∙ check_ranks-counts size_of jobid total size 0 after hr

  -- Any number of fences of test_item10, with any number of keys for each, when every Put and Fence
  -- succeeds and each Get answers what its rank has put: under key `k` the letter number `k`, as often
  -- as the size says that this rank has drawn. The letters are then those that the item expects of
  -- every rank; where the size of a rank is another than that of the client, each of its keys gives one
  -- fatal message, and one more for each letter that is missing. The item goes on with 0 all the same.
  pub fence_rounds-counts :
      (size_of : ℕ → ℕ) (keys_per_fence n total : ℕ) (c : Client L)
      → RoundsAnswer size_of c.jobid c.job.rank (rounds c.job.size) keys_per_fence n total c.library
      → fence_rounds lib max_vallen val_size keys_per_fence n total (symbol total) (pos 0) c ≡ (
        next (pos 0),
        record c {
          library =
              after_rounds size_of c.jobid c.job.rank
                (rounds c.job.size)
                keys_per_fence
                n
                total
                c.library;
          fatal = c.fatal + all_misses size_of (rounds c.job.size) keys_per_fence n total;
        },
      )
  unfolding fence_rounds RoundsAnswer after_rounds all_misses
  fence_rounds-counts size_of per zero total c h =
      ap (λ (f : ℕ). (next (pos 0), record c { fatal = f })) (omega arith)
  fence_rounds-counts size_of per (suc n) total c (hp, hf, hr, more) =
      let size = rounds c.job.size in
      let one = misses size_of (total + per) size 0 in
      let put = record c { library = put_values c.job.rank per total c.library } in
      let after = record c {
        library = after_fence size_of c.jobid c.job.rank size per total c.library;
        fatal = c.fatal + one;
      } in
      let symb = symbol (total + per) in
      let sum : (c.fatal + one) + all_misses size_of size per n (total + per)
          ≡ c.fatal + (one + all_misses size_of size per n (total + per)) =
        omega arith in
      bind-next
        (λ symb. fence_check lib max_vallen val_size c.jobid size (total + per) >>= λ rc.
          fence_rounds lib max_vallen val_size per n (total + per) symb rc)
        (put_keys lib max_vallen val_size c.job.rank total per 0 (symbol total)) c put symb
        (put_keys-symbols c.job.rank total per 0 total (total + per) c (omega arith) refl hp)
      ∙ bind-next (fence_rounds lib max_vallen val_size per n (total + per) symb)
          (fence_check lib max_vallen val_size c.jobid size (total + per)) put after (pos 0)
          (fence_check-counts size_of c.jobid size (total + per) put hf hr)
      ∙ fence_rounds-counts size_of per n (total + per) after more
      ∙ ap
          (λ (f : ℕ). (
            next (pos 0),
            record after {
              library =
                  after_rounds size_of c.jobid c.job.rank size per n (total + per) after.library;
              fatal = f;
            },
          ))
          sum
