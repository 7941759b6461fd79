-- ===== src/Pmi/Pmi2/Store.antt =====
-- unit/pmi2_client.c: the items that put keys, fence and get keys, `test_item6` to `test_item9`.
pub mod Verdict
use pmix_tests.Base.{
  ℕ, zero, suc, ◌≡◌, Bool, true, false, Option, some, none, List, [], ◌∷◌, length, if◌then◌else◌,
}
use pmix_tests.Base.Int.{ℤ, pos, negsuc, eqb}
use pmix_tests.Base.Text.{CString, codes, str_eq}
use pmix_tests.Pmi.{
  Client, Step, next, leave, Item, ◌>>=◌, ◌>>◌, Answer, done, gets, call, check, log_assert,
  is_success, rounds, key_of, value_of,
}
use pmix_tests.Pmi.Pmi2.{Library}

-- `max_vallen` and `id_null` are `PMI2_MAX_VALLEN` and `PMI2_ID_NULL`.
module _ {L : Type 0} (lib : Library L) (max_vallen : ℕ) (id_null : ℤ) where
  -- `file` is `__FILE__`.
  unfoldable pub test_item6 : CString → Item L ℤ
  test_item6 file = do
    put ← call (lib.kvs_put (codes "test_item6") file)
    check put.rc
    got ← call (lib.kvs_get none id_null (codes "test_item6") max_vallen)
    done (if is_success got.rc then pos 1 else pos 0)

  unfoldable pub test_item7 : Item L ℤ
  test_item7 = do
    rank ← gets (λ c. c.job.rank)
    put ← call (lib.kvs_put (key_of rank) (value_of rank))
    check put.rc
    fence ← call lib.kvs_fence
    check fence.rc
    jobid ← gets (λ c. c.jobid)
    got ← call (lib.kvs_get (some jobid) rank (key_of rank) max_vallen)
    check got.rc
    rc ← log_assert (eqb (pos (length (value_of rank))) got.out.1) got.rc
    rc ← log_assert (str_eq (value_of rank) got.out.0) rc
    done (pos 0)

  abbrev put_if : Bool → ℤ → ℤ → Item L ℤ
  put_if true i rc = do put ← call (lib.kvs_put (key_of i) (value_of i)); check put.rc; done put.rc
  put_if false i rc = done rc

  -- `n` rounds of the loop from `i` on, which puts the key of the client's own rank.
  unfoldable pub put_loop : ℤ → ℕ → ℕ → ℤ → Item L ℤ
  put_loop rank zero i rc = done rc
  put_loop rank (suc n) i rc = do
    rc ← put_if (eqb (pos i) rank) (pos i) rc
    put_loop rank n (suc i) rc

  -- `n` rounds of the loop from `i` on, which gets the key of each rank; `id` is the source's.
  unfoldable pub get_loop : (ℤ → ℤ) → CString → ℕ → ℕ → ℤ → Item L ℤ
  get_loop id jobid zero i rc = done rc
  get_loop id jobid (suc n) i rc = do
    got ← call (lib.kvs_get (some jobid) (id (pos i)) (key_of (pos i)) max_vallen)
    check got.rc
    rc ← log_assert (eqb (pos (length (value_of (pos i)))) got.out.1) got.rc
    rc ← log_assert (str_eq (value_of (pos i)) got.out.0) rc
    get_loop id jobid n (suc i) rc

  abbrev get_all : (ℤ → ℤ) → ℤ → ℤ → Item L ℤ
  get_all id size rc = do jobid ← gets (λ c. c.jobid); get_loop id jobid (rounds size) 0 rc

  abbrev fence_get : (ℤ → ℤ) → ℤ → Item L ℤ
  fence_get id size = do fence ← call lib.kvs_fence; check fence.rc; get_all id size fence.rc

  unfoldable pub put_fence_get : (ℤ → ℤ) → Item L ℤ
  put_fence_get id = do
    job ← gets (λ c. c.job)
    rc ← put_loop job.rank (rounds job.size) 0 (pos 0)
    fence_get id job.size

  unfoldable pub test_item8 : Item L ℤ
  test_item8 = put_fence_get (λ i. i)

  unfoldable pub test_item9 : Item L ℤ
  test_item9 = put_fence_get (λ i. id_null)
