-- ===== src/Pmi/Pmi2.antt =====
-- unit/pmi2_client.c: `main` and the items of the PMI-2 client that ask for the job and the
-- attributes, `test_item1` to `test_item5`. The PMI-2 library is the parameter `lib`.
pub mod Store
pub mod Many
use pmix_tests.Base.{
  ℕ, ◌≡◌, Bool, true, false, ◌&&◌, ◌||◌, not, Option, some, none, List, [], ◌∷◌, length, ◌==◌,
  if◌then◌else◌,
}
use pmix_tests.Base.Int.{ℤ, pos, negsuc, eqb}
use pmix_tests.Base.Text.{CString, codes, str_eq}
use pmix_tests.Pmi.{
  Job, Client, Step, next, leave, Item, ◌>>=◌, ◌>>◌, Answer, done, gets, call, set_jobid, check,
  log_assert, random_value, below, not_negative,
}

-- The calls of the library. A call is given what its output arguments hold, where the client keeps
-- them after a failure, and the size of a buffer that it fills; `val` and `found` are its outputs.
pub record Library (L : Type 0) : Type 0 where
  pub init : Job → L → Answer L Job
  pub finalize : L → Answer L (Unit {0})
  pub initialized : L → Bool
  pub job_get_id : CString → ℕ → L → Answer L CString
  pub job_get_rank : ℤ → L → Answer L ℤ
  pub info_get_size : ℤ → L → Answer L ℤ
  pub info_get_job_attr : CString → ℕ → L → Answer L (CString × Bool)
  pub info_get_node_attr : CString → ℕ → Bool → L → Answer L (CString × Bool)
  pub info_put_node_attr : CString → CString → L → Answer L (Unit {0})
  pub kvs_put : CString → CString → L → Answer L (Unit {0})
  pub kvs_fence : L → Answer L (Unit {0})
  pub kvs_get : Option CString → ℤ → CString → ℕ → L → Answer L (CString × ℤ)

module _ {L : Type 0} (lib : Library L) where
  -- The part of `main` up to the first item: `job` holds four values of `random_value`, and
  -- `has_namespace` says whether `PMIX_NAMESPACE` is set.
  unfoldable pub start : Job → Bool → Client L → ℤ × Client L
  start job has_namespace c =
      let a = lib.init job c.library in
      (a.rc, record c { job = a.out; legacy = not has_namespace; library = a.after })

  unfoldable pub finish : Client L → ℤ × Client L
  finish c = let a = lib.finalize c.library in (a.rc, record c { library = a.after })

  -- `jobid` has 100 bytes; `memcmp` with `__func__` compares its end too.
  unfoldable pub test_item1 : Item L ℤ
  test_item1 = do
    job ← gets (λ c. c.job)
    rc ← log_assert (eqb job.spawned (pos 0) || eqb job.spawned (pos 1)) (pos 0)
    rc ← log_assert (not_negative job.size) rc
    rc ← log_assert (not_negative job.rank) rc
    rc ← log_assert (below job.rank job.size) rc
    set_jobid (codes "test_item1")
    id ← call (lib.job_get_id (codes "test_item1") 100)
    set_jobid id.out
    check id.rc
    log_assert (not (str_eq id.out (codes "test_item1"))) id.rc

  -- `rand` is the answer of `rand()`.
  unfoldable pub test_item2 : ℕ → Item L ℤ
  test_item2 rand = do
    job ← gets (λ c. c.job)
    is_init ← gets (λ c. lib.initialized c.library)
    rc ← log_assert is_init (pos 0)
    rank ← call (lib.job_get_rank (pos (random_value rand 10 100)))
    check rank.rc
    rc ← log_assert (eqb job.rank rank.out) rank.rc
    size ← call (lib.info_get_size (negsuc 0))
    check size.rc
    log_assert (below (pos 0) size.out) size.rc

  -- The loop over `tkeys`; what is found is logged only.
  unfoldable pub get_attrs : (CString → L → Answer L (CString × Bool)) → List CString → ℤ → Item L ℤ
  get_attrs get [] rc = done rc
  get_attrs get (key ∷ keys) rc = do a ← call (get key); check a.rc; get_attrs get keys a.rc

  abbrev job_keys : List CString
  job_keys =
      codes "universeSize"
      ∷ codes "hasNameServ"
      ∷ codes "physTopology"
      ∷ codes "physTopologyLevels"
      ∷ codes "cartDims"
      ∷ codes "isHeterogeneous"
      ∷ []

  abbrev node_keys : List CString
  node_keys =
      codes "memPoolType" ∷ codes "memSYSVid" ∷ codes "memAnonMMAPfd" ∷ codes "memNTName" ∷ []

  -- `max_vallen` is `PMI2_MAX_VALLEN`.
  unfoldable pub test_item3 : ℕ → Item L ℤ
  test_item3 max_vallen = do
    legacy ← gets (λ c. c.legacy)
    if not legacy
        then done (pos 0)
        else get_attrs (λ key. lib.info_get_job_attr key max_vallen) job_keys (pos 0)

  unfoldable pub test_item4 : ℕ → Item L ℤ
  test_item4 max_vallen = do
    legacy ← gets (λ c. c.legacy)
    if not legacy
        then done (pos 0)
        else get_attrs (λ key. lib.info_get_node_attr key max_vallen true) node_keys (pos 0)

  unfoldable pub test_item5 : ℕ → Item L ℤ
  test_item5 max_vallen = do
    put ← call (lib.info_put_node_attr (codes "sharedFilename") (codes "pmix-pmi2-check"))
    check put.rc
    got ← call (lib.info_get_node_attr (codes "sharedFilename") max_vallen true)
    check got.rc
    rc ← log_assert got.out.1 got.rc
    rc ← log_assert (length (codes "pmix-pmi2-check") == length got.out.0) rc
    log_assert (str_eq (codes "pmix-pmi2-check") got.out.0) rc
