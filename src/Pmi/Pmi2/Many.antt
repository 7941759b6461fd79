-- ===== src/Pmi/Pmi2/Many.antt =====
-- unit/pmi2_client.c: `test_item10`, several fences with many keys each, and the whole `main`.
pub mod Symbols
pub mod Blind
use pmix_tests.Base.{
  ℕ, zero, suc, ◌+◌, ◌/◌, ◌≡◌, Bool, true, false, Option, some, none, List, [], ◌∷◌, ◌++◌, ltb,
  ◌==◌, replicate, if◌then◌else◌,
}
use pmix_tests.Base.Int.{ℤ, pos, eqb}
use pmix_tests.Base.Text.{CString, codes}
use pmix_tests.Options.Numbers.{print_int}
use pmix_tests.Pmi.{
  Job, Client, Step, next, leave, Item, ◌>>=◌, ◌>>◌, Answer, done, gets, call, check, note_fatal,
  random_value, rounds, Numbered, main,
}
use pmix_tests.Pmi.Pmi2.{
  Library, start, finish, test_item1, test_item2, test_item3, test_item4, test_item5,
}
use pmix_tests.Pmi.Pmi2.Store.{test_item6, test_item7, test_item8, test_item9}

-- `sprintf(key, "RANK%d-key-%d", rank, i)`
unfoldable pub many_key : ℤ → ℕ → CString
many_key rank i = codes "RANK" ++ (print_int rank ++ (codes "-key-" ++ print_int (pos i)))

-- `symb++; if (symb > 'z') symb = 'a';`
unfoldable pub next_symb : ℕ → ℕ
next_symb symb = let s = symb + 1 in if ltb b'z' s then b'a' else s

-- How many of the first `n` bytes of `val`, a text in a buffer of zeros, differ from `symb`.
unfoldable pub differing : ℕ → CString → ℕ → ℕ
differing zero val symb = 0
differing (suc n) [] symb = (if 0 == symb then 0 else 1) + differing n [] symb
differing (suc n) (v ∷ val) symb = (if v == symb then 0 else 1) + differing n val symb

module _ {L : Type 0} (lib : Library L) (max_vallen val_size : ℕ) where
  -- `n` rounds of the loop from `i` on; the result is `symb` behind it.
  unfoldable pub put_keys : ℤ → ℕ → ℕ → ℕ → ℕ → Item L ℕ
  put_keys rank keys_total zero i symb = done symb
  put_keys rank keys_total (suc n) i symb = do
    put ← call (lib.kvs_put (many_key rank (i + keys_total)) (replicate val_size symb))
    check put.rc
    put_keys rank keys_total n (suc i) (next_symb symb)

  -- The messages about one key: of its length, and of each byte.
  abbrev unexpected : CString × ℤ → ℕ → ℕ
  unexpected out symb = (if eqb out.1 (pos val_size) then 0 else 1) + differing val_size out.0 symb

  -- `n` rounds of the loop over the keys of rank `r` from `i` on; what differs is logged.
  unfoldable pub check_keys : CString → ℕ → ℕ → ℕ → ℕ → ℤ → Item L ℤ
  check_keys jobid r zero i symb rc = done rc
  check_keys jobid r (suc n) i symb rc = do
    got ← call (lib.kvs_get (some jobid) (pos r) (many_key (pos r) i) max_vallen)
    check got.rc
    note_fatal (unexpected got.out symb)
    check_keys jobid r n (suc i) (next_symb symb) got.rc

  -- `n` rounds of the loop over the ranks from `r` on.
  unfoldable pub check_ranks : CString → ℕ → ℕ → ℕ → ℤ → Item L ℤ
  check_ranks jobid keys_total zero r rc = done rc
  check_ranks jobid keys_total (suc n) r rc = do
    rc ← check_keys jobid r keys_total 0 b'a' rc
    check_ranks jobid keys_total n (suc r) rc

  unfoldable pub fence_check : CString → ℕ → ℕ → Item L ℤ
  fence_check jobid size keys_total = do
    fence ← call lib.kvs_fence
    check fence.rc
    check_ranks jobid keys_total size 0 fence.rc

  -- `n` rounds of the outer loop, with `keys_per_fence` keys for each fence.
  unfoldable pub fence_rounds : ℕ → ℕ → ℕ → ℕ → ℤ → Item L ℤ
  fence_rounds keys_per_fence zero keys_total symb_start rc = done rc
  fence_rounds keys_per_fence (suc n) keys_total symb_start rc = do
    job ← gets (λ c. c.job)
    jobid ← gets (λ c. c.jobid)
    symb ← put_keys job.rank keys_total keys_per_fence 0 symb_start
    rc ← fence_check jobid (rounds job.size) (keys_total + keys_per_fence)
    fence_rounds keys_per_fence n (keys_total + keys_per_fence) symb rc

module _ {L : Type 0} (lib : Library L) (max_vallen : ℕ) (id_null : ℤ) (file : CString) where
  unfoldable pub test_item10 : ℕ → Item L ℤ
  test_item10 rand =
      fence_rounds lib max_vallen (random_value rand 10 (max_vallen / 10)) 50 5 0 b'a' (pos 0)

  -- The items of `main` with the answers of `rand()` that they use.
  abbrev pub items : ℕ → ℕ → List (Numbered L)
  items rand_rank rand_size =
      record { number = 1; body = test_item1 lib }
      ∷ record { number = 2; body = test_item2 lib rand_rank }
      ∷ record { number = 3; body = test_item3 lib max_vallen }
      ∷ record { number = 4; body = test_item4 lib max_vallen }
      ∷ record { number = 5; body = test_item5 lib max_vallen }
      ∷ record { number = 6; body = test_item6 lib max_vallen id_null file }
      ∷ record { number = 7; body = test_item7 lib max_vallen id_null }
      ∷ record { number = 8; body = test_item8 lib max_vallen id_null }
      ∷ record { number = 9; body = test_item9 lib max_vallen id_null }
      ∷ record { number = 10; body = test_item10 rand_size }
      ∷ []

  -- `ti` is the number on the command line, 0 if there is none, and `job` holds random values.
  unfoldable pub pmi2_main : ℤ → Job → Bool → ℕ → ℕ → Client L → ℤ × Client L
  pmi2_main ti job has_namespace rand_rank rand_size =
      main (start lib job has_namespace) (finish lib) (items rand_rank rand_size) ti
