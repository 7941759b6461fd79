-- ===== src/Pmi/Pmi1/Verdict.antt =====
-- What `test_item1` and `test_item4` of unit/pmi_client.c make of the values they get.
use pmix_tests.Base.{
  ℕ, ◌+◌, ◌≡◌, refl, false, ◌&&◌, ◌||◌, List, [], ◌∷◌, arith, replicate, if◌then◌else◌, Bool-cases,
  inl, inr,
}
use pmix_tests.Base.Int.{ℤ, pos, negsuc, eqb}
use pmix_tests.Base.Text.{CString, codes, str_eq}
use pmix_tests.Pmi.{
  Item, ◌>>=◌, Client, Answer, returned, rounds, random_value, below, not_negative,
}
use pmix_tests.Pmi.Pmi1.{
  Library, get_size_rank, get_appnum_universe, get_length_max, get_name, check_clique, test_item1,
  test_item4,
}

module _ {L : Type 0} (lib : Library L) where
  check_clique-rc :
      (size : ℤ) (ranks : List ℤ) (rc : ℤ) (c : Client L)
      → (returned (check_clique lib size ranks rc c)).0 ≡ rc
  unfolding check_clique
  check_clique-rc size [] rc c = refl
  check_clique-rc size (rank ∷ ranks) rc c =
      elim (Bool-cases (not_negative rank && below rank size)) [
        | inl e ↦ rw e (check_clique-rc size ranks rc c)
        | inr e ↦ rw e refl
      ]

  -- When the clique's size and ranks are answered, test_item4 returns 0 whatever they are: also for
  -- a size that is not above 0 or is above the job's, and for ranks that are not of the job.
  pub test_item4-passes :
      (c : Client L)
      → let val = lib.get_clique_size (negsuc 0) c.library in
        let ranks =
          lib.get_clique_ranks (replicate (rounds val.out) (negsuc 0)) val.out val.after in
        val.rc ≡ pos 0 → ranks.rc ≡ pos 0 → (returned (test_item4 lib c)).0 ≡ pos 0
  unfolding test_item4
  test_item4-passes c hv hr =
      let val = lib.get_clique_size (negsuc 0) c.library in
      let ranks = lib.get_clique_ranks (replicate (rounds val.out) (negsuc 0)) val.out val.after in
      let clique = check_clique-rc c.job.size ranks.out (pos 0) in
      let after = record c { library = ranks.after } in
      ground (arith, clique after, clique (record after { fatal = c.fatal + 1 }))

  -- The calls of test_item1 succeed, and no name that is answered is the function's.
  pub record Names : Type 0 where
    pub size : (i : ℤ) (l : L) → (lib.get_size i l).rc ≡ pos 0
    pub rank : (i : ℤ) (l : L) → (lib.get_rank i l).rc ≡ pos 0
    pub appnum : (i : ℤ) (l : L) → (lib.get_appnum i l).rc ≡ pos 0
    pub universe : (i : ℤ) (l : L) → (lib.get_universe_size i l).rc ≡ pos 0
    pub id_length : (i : ℤ) (l : L) → (lib.get_id_length_max i l).rc ≡ pos 0
    pub id : (s : CString) (n : ℕ) (l : L) → (lib.get_id s n l).rc ≡ pos 0
    pub domain : (s : CString) (n : ℕ) (l : L) → (lib.get_kvs_domain_id s n l).rc ≡ pos 0
    pub my_name : (s : CString) (n : ℕ) (l : L) → (lib.kvs_get_my_name s n l).rc ≡ pos 0
    pub other :
        (s : CString) (n : ℕ) (l : L)
        → str_eq (lib.kvs_get_my_name s n l).out (codes "test_item1") ≡ false

  -- The rest of an item returns 0 from every state.
  abbrev Rest : (ℤ → Item L ℤ) → Type 0
  Rest k = (rc : ℤ) (c : Client L) → (returned (k rc c)).0 ≡ pos 0

  module _ (h : Names) (k : ℤ → Item L ℤ) (rest : Rest k) where
    size_rank-Rest : Rest (λ rc. get_size_rank lib rc >>= k)
    size_rank-Rest rc c =
        let size = lib.get_size c.job.size c.library in
        let rank = lib.get_rank c.job.rank size.after in
        rw (h.size c.job.size c.library, h.rank c.job.rank size.after) (rest _ _)

    appnum_universe-Rest : (rand : ℕ) → Rest (λ rc. get_appnum_universe lib rand rc >>= k)
    appnum_universe-Rest rand rc c =
        let appnum = lib.get_appnum c.job.appnum c.library in
        let old = pos (random_value rand 10 100) in
        rw (h.appnum c.job.appnum c.library, h.universe old appnum.after) (rest _ _)

    length_max-Rest : (rand : ℕ) → Rest (λ rc. get_length_max lib rand rc >>= k)
    length_max-Rest rand rc c =
        let old = pos (random_value rand 10 100) in
        elim (Bool-cases c.legacy) [
          | inl e ↦ rw (h.id_length old c.library, e) (rest _ _)
          | inr e ↦ rw (h.id_length old c.library, e) (rest _ _)
        ]

    name-Rest :
        (get : CString → ℕ → L → Answer L CString)
        → ((s : CString) (n : ℕ) (l : L) → (get s n l).rc ≡ pos 0)
        → Rest (λ rc. get_name lib get rc >>= k)
    name-Rest get ok rc c = rw (ok (codes "test_item1") 255 c.library) (rest _ _)

  my_name-Rest : Names → Rest (get_name lib lib.kvs_get_my_name)
  my_name-Rest h rc c =
      rw (h.my_name (codes "test_item1") 255 c.library, h.other (codes "test_item1") 255 c.library)
        refl

  -- When the calls of test_item1 succeed and the name of the key value space is not the function's,
  -- test_item1 returns 0 whatever numbers are answered: also for a rank that is not below the size.
  pub test_item1-passes :
      (rand rand' : ℕ) (c : Client L) → Names → (returned (test_item1 lib rand rand' c)).0 ≡ pos 0
  unfolding test_item1
  test_item1-passes rand rand' c h =
      let end = get_name lib lib.kvs_get_my_name in
      let domain = λ (rc : ℤ). get_name lib lib.get_kvs_domain_id rc >>= end in
      let id = λ (rc : ℤ). get_name lib lib.get_id rc >>= domain in
      let long = λ (rc : ℤ). get_length_max lib rand' rc >>= id in
      let appnum = λ (rc : ℤ). get_appnum_universe lib rand rc >>= long in
      let is_bool = eqb c.job.spawned (pos 0) || eqb c.job.spawned (pos 1) in
      size_rank-Rest h appnum
        (appnum_universe-Rest h long
          (length_max-Rest h id
            (name-Rest h domain (name-Rest h end (my_name-Rest h) lib.get_kvs_domain_id h.domain)
              lib.get_id h.id)
            rand')
          rand)
        (if is_bool then pos 0 else negsuc 0) _
