-- ===== src/Server/Procs/Ranks.antt =====
-- Packing the ranks that a server runs and reading them into another server's task map, in
-- unit/test_server.c.
use mathlib.Core.List.{append_assoc}
use pmix_tests.Base.{
  ℕ, suc, ◌+◌, ◌*◌, ◌^◌, ◌≤◌, ◌≡◌, refl, Option, none, some, List, [], ◌∷◌, ◌++◌, arith,
  if◌then◌else◌, length, length-append, get_elem?-middle, set-middle, ok, Bool-cases, inl, inr,
}
use pmix_tests.Server.Bytes.{int_size, put, length-put, read-put}
use pmix_tests.Server.Procs.{runs_on, pack_ranks, unpack_ranks}

-- How many ranks of a task map a server runs.
abbrev pub owned : ℕ → List (Option ℕ) → ℕ
owned id [] = 0
owned id (t ∷ ts) = if runs_on id t then suc (owned id ts) else owned id ts

-- A rank that has an owner keeps it; another gets the server that sent it.
abbrev pub merge_rank : ℕ → Option ℕ → Option ℕ → Option ℕ
merge_rank id t (some owner) = some owner
merge_rank id t none = if runs_on id t then some id else none

abbrev pub merge_map : ℕ → List (Option ℕ) → List (Option ℕ) → List (Option ℕ)
merge_map id (t ∷ ts) (d ∷ ds) = merge_rank id t d ∷ merge_map id ts ds
merge_map id _ ds = ds

pub length-pack_ranks :
    (id i : ℕ) (ts : List (Option ℕ)) → length (pack_ranks id i ts) ≡ int_size * owned id ts
unfolding pack_ranks
length-pack_ranks id i [] = refl
length-pack_ranks id i (t ∷ ts) = ground (
  arith,
  length-append (put 4 i) (pack_ranks id (suc i) ts),
  length-put 4 i,
  length-pack_ranks id (suc i) ts,
)

length-snoc : (pre : List (Option ℕ)) (x : Option ℕ) → length (pre ++ x ∷ []) ≡ suc (length pre)
length-snoc pre x = omega (arith, length-append pre (x ∷ []))

module _ (id : ℕ) (rest : List ℕ) where
  pub unpack-pack_ranks :
      (src dst pre : List (Option ℕ)) (i : ℕ)
      → length pre ≡ i
      → length src ≡ length dst
      → i + length src ≤ 256 ^ int_size
      → unpack_ranks id (owned id src) (pack_ranks id i src ++ rest) (pre ++ dst)
        ≡ ok (pre ++ merge_map id src dst, rest)
  unfolding pack_ranks unpack_ranks
  unpack-pack_ranks [] [] pre i e l fit = refl
  unpack-pack_ranks [] (d ∷ ds) pre i e l fit = absurd (omega arith)
  unpack-pack_ranks (t ∷ ts) [] pre i e l fit = absurd (omega arith)
  unpack-pack_ranks (t ∷ ts) (d ∷ ds) pre i e l fit =
      let ih : (x : Option ℕ)
          → unpack_ranks id (owned id ts) (pack_ranks id (suc i) ts ++ rest) (pre ++ x ∷ ds)
            ≡ ok (pre ++ x ∷ merge_map id ts ds, rest) =
        λ x.
          rw (append_assoc pre (x ∷ []) ds, append_assoc pre (x ∷ []) (merge_map id ts ds)) at
            (unpack-pack_ranks ts ds (pre ++ x ∷ []) (suc i) (omega (arith, length-snoc pre x))
              (omega arith) (omega arith)) in
      elim (Bool-cases (runs_on id t)) [
        | inl own ↦ rw own (
            ground (
              arith,
              append_assoc (put int_size i) (pack_ranks id (suc i) ts) rest,
              read-put int_size i (pack_ranks id (suc i) ts ++ rest),
              get_elem?-middle pre d ds,
              set-middle pre d (some id) ds,
              ih (some id),
              ih d,
            ))
        | inr other ↦ rw other (ground (arith, ih d))
      ]
