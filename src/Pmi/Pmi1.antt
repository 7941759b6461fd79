-- ===== src/Pmi/Pmi1.antt =====
-- unit/pmi_client.c: `main` and the items `test_item1` to `test_item7` of the PMI-1 client. The
-- PMI-1 library is the parameter `lib`; `PMI_TRUE` and `PMI_FALSE` are 1 and 0.
pub mod Verdict
use pmix_tests.Base.{
  ℕ, zero, suc, ◌≡◌, Bool, true, false, ◌&&◌, ◌||◌, not, List, [], ◌∷◌, replicate, if◌then◌else◌,
}
use pmix_tests.Base.Int.{ℤ, pos, negsuc, eqb}
use pmix_tests.Base.Text.{CString, codes, str_eq}
use pmix_tests.Pmi.{
  Job, Client, Step, next, leave, Item, ◌>>=◌, ◌>>◌, Answer, done, gets, call, set_jobid, set_job,
  check, note_fatal, log_assert, random_value, below, not_negative, rounds, key_of, value_of,
  Numbered, main,
}

-- The calls of the library. A call is given what its output argument holds, and the size of a buffer
-- that it fills.
pub record Library (L : Type 0) : Type 0 where
  pub init : ℤ → L → Answer L ℤ
  pub finalize : L → Answer L (Unit {0})
  pub initialized : L → Answer L ℤ
  pub get_size : ℤ → L → Answer L ℤ
  pub get_rank : ℤ → L → Answer L ℤ
  pub get_appnum : ℤ → L → Answer L ℤ
  pub get_universe_size : ℤ → L → Answer L ℤ
  pub get_id_length_max : ℤ → L → Answer L ℤ
  pub get_id : CString → ℕ → L → Answer L CString
  pub get_kvs_domain_id : CString → ℕ → L → Answer L CString
  pub kvs_get_my_name : CString → ℕ → L → Answer L CString
  pub kvs_get_key_length_max : ℤ → L → Answer L ℤ
  pub kvs_get_value_length_max : ℤ → L → Answer L ℤ
  pub get_clique_size : ℤ → L → Answer L ℤ
  pub get_clique_ranks : List ℤ → ℤ → L → Answer L (List ℤ)
  pub kvs_put : CString → CString → CString → L → Answer L (Unit {0})
  pub kvs_get : CString → CString → ℤ → L → Answer L CString
  pub kvs_commit : CString → L → Answer L (Unit {0})
  pub barrier : L → Answer L (Unit {0})

module _ {L : Type 0} (lib : Library L) where
  -- The part of `main` up to the first item: `job` holds four values of `random_value`, and
  -- `has_namespace` says whether `PMIX_NAMESPACE` is set.
  unfoldable pub start : Job → Bool → Client L → ℤ × Client L
  start job has_namespace c =
      let a = lib.init job.spawned c.library in
      (
        a.rc,
        record c {
          job = record job { spawned = a.out };
          legacy = not has_namespace;
          library = a.after;
        },
      )

  unfoldable pub finish : Client L → ℤ × Client L
  finish c = let a = lib.finalize c.library in (a.rc, record c { library = a.after })

  abbrev get_size_rank : ℤ → Item L ℤ
  get_size_rank rc = do
    job ← gets (λ c. c.job)
    size ← call (lib.get_size job.size)
    set_job (λ j. record j { size = size.out })
    check size.rc
    rc ← log_assert (not_negative size.out) size.rc
    rank ← call (lib.get_rank job.rank)
    set_job (λ j. record j { rank = rank.out })
    check rank.rc
    rc ← log_assert (not_negative rank.out) rank.rc
    log_assert (below rank.out size.out) rc

  abbrev get_appnum_universe : ℕ → ℤ → Item L ℤ
  get_appnum_universe rand rc = do
    job ← gets (λ c. c.job)
    appnum ← call (lib.get_appnum job.appnum)
    set_job (λ j. record j { appnum = appnum.out })
    check appnum.rc
    universe ← call (lib.get_universe_size (pos (random_value rand 10 100)))
    check universe.rc
    log_assert (eqb job.size universe.out) universe.rc

  -- `jobid` has 255 bytes.
  abbrev get_length_max : ℕ → ℤ → Item L ℤ
  get_length_max rand rc = do
    legacy ← gets (λ c. c.legacy)
    long ← call (lib.get_id_length_max (pos (random_value rand 10 100)))
    check long.rc
    if legacy then done long.rc else log_assert (eqb long.out (pos 255)) long.rc

  -- One of the three calls that fill `jobid`; `memcmp` with `__func__` compares its end too.
  abbrev get_name : (CString → ℕ → L → Answer L CString) → ℤ → Item L ℤ
  get_name get rc = do
    set_jobid (codes "test_item1")
    id ← call (get (codes "test_item1") 255)
    set_jobid id.out
    check id.rc
    log_assert (not (str_eq id.out (codes "test_item1"))) id.rc

  -- The two numbers are answers of `rand()`.
  unfoldable pub test_item1 : ℕ → ℕ → Item L ℤ
  test_item1 rand rand' = do
    job ← gets (λ c. c.job)
    rc ← log_assert (eqb job.spawned (pos 0) || eqb job.spawned (pos 1)) (pos 0)
    rc ← get_size_rank rc
    rc ← get_appnum_universe rand rc
    rc ← get_length_max rand' rc
    rc ← get_name lib.get_id rc
    rc ← get_name lib.get_kvs_domain_id rc
    get_name lib.kvs_get_my_name rc

  unfoldable pub test_item2 : Item L ℤ
  test_item2 = do val ← call lib.initialized; check val.rc; log_assert (eqb (pos 1) val.out) val.rc

  unfoldable pub test_item3 : ℕ → ℕ → Item L ℤ
  test_item3 rand rand' = do
    legacy ← gets (λ c. c.legacy)
    key ← call (lib.kvs_get_key_length_max (pos (random_value rand 10 100)))
    check key.rc
    rc ← if legacy then done key.rc else log_assert (eqb (pos 511) key.out) key.rc
    val ← call (lib.kvs_get_value_length_max (pos (random_value rand' 10 100)))
    check val.rc
    if legacy then done val.rc else log_assert (eqb (pos 4096) val.out) val.rc

  -- The loop over the array `ranks`: `return rc` behind the first invalid value.
  unfoldable pub check_clique : ℤ → List ℤ → ℤ → Item L ℤ
  check_clique size [] rc = done rc
  check_clique size (rank ∷ ranks) rc =
      let more = check_clique size ranks rc in
      if not_negative rank && below rank size then more else note_fatal 1 >> done rc

  -- The array of `alloca` has an element for each process of the clique, and is filled with -1.
  unfoldable pub test_item4 : Item L ℤ
  test_item4 = do
    job ← gets (λ c. c.job)
    val ← call (lib.get_clique_size (negsuc 0))
    check val.rc
    rc ← log_assert (below (pos 0) val.out && not (below job.size val.out)) val.rc
    ranks ← call (lib.get_clique_ranks (replicate (rounds val.out) (negsuc 0)) val.out)
    check ranks.rc
    check_clique job.size ranks.out ranks.rc

  -- `tkeys` has one key.
  abbrev get_mapping : Item L ℤ
  get_mapping = do
    size ← call (lib.kvs_get_value_length_max (pos 0))
    check size.rc
    jobid ← gets (λ c. c.jobid)
    val ← call (lib.kvs_get jobid (codes "PMI_process_mapping") size.out)
    check val.rc
    done val.rc

  unfoldable pub test_item5 : Item L ℤ
  test_item5 = do legacy ← gets (λ c. c.legacy); if not legacy then done (pos 0) else get_mapping

  -- `file` is `__FILE__`.
  unfoldable pub test_item6 : CString → Item L ℤ
  test_item6 file = do
    jobid ← gets (λ c. c.jobid)
    put ← call (lib.kvs_put jobid (codes "test_item6") file)
    check put.rc
    val ← call (lib.kvs_get jobid (codes "test_item6") (pos 100))
    check val.rc
    log_assert (str_eq file val.out) val.rc

  abbrev put_if : CString → Bool → ℤ → ℤ → Item L ℤ
  put_if jobid true i rc = do
    put ← call (lib.kvs_put jobid (key_of i) (value_of i))
    check put.rc
    done put.rc
  put_if jobid false i rc = done rc

  -- `n` rounds of the loop from `i` on, which puts the key of the client's own rank.
  unfoldable pub put_loop : CString → ℤ → ℕ → ℕ → ℤ → Item L ℤ
  put_loop jobid rank zero i rc = done rc
  put_loop jobid rank (suc n) i rc = do
    rc ← put_if jobid (eqb (pos i) rank) (pos i) rc
    put_loop jobid rank n (suc i) rc

  -- `n` rounds of the loop from `i` on, which gets the key of each rank.
  unfoldable pub get_loop : CString → ℕ → ℕ → ℤ → Item L ℤ
  get_loop jobid zero i rc = done rc
  get_loop jobid (suc n) i rc = do
    val ← call (lib.kvs_get jobid (key_of (pos i)) (pos 100))
    check val.rc
    rc ← log_assert (str_eq (value_of (pos i)) val.out) val.rc
    get_loop jobid n (suc i) rc

  unfoldable pub test_item7 : Item L ℤ
  test_item7 = do
    job ← gets (λ c. c.job)
    jobid ← gets (λ c. c.jobid)
    rc ← put_loop jobid job.rank (rounds job.size) 0 (pos 0)
    commit ← call (lib.kvs_commit jobid)
    check commit.rc
    barrier ← call lib.barrier
    check barrier.rc
    get_loop jobid (rounds job.size) 0 barrier.rc

  -- The items of `main` with the answers of `rand()` that they use.
  abbrev pub items : CString → ℕ → ℕ → List (Numbered L)
  items file rand rand' =
      record { number = 1; body = test_item1 rand rand' }
      ∷ record { number = 2; body = test_item2 }
      ∷ record { number = 3; body = test_item3 rand rand' }
      ∷ record { number = 4; body = test_item4 }
      ∷ record { number = 5; body = test_item5 }
      ∷ record { number = 6; body = test_item6 file }
      ∷ record { number = 7; body = test_item7 }
      ∷ []

  -- `ti` is the number on the command line, 0 if there is none.
  unfoldable pub pmi_main : CString → ℤ → Job → Bool → ℕ → ℕ → Client L → ℤ × Client L
  pmi_main file ti job has_namespace rand rand' =
      main (start job has_namespace) finish (items file rand rand') ti
