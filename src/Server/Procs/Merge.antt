-- ===== src/Server/Procs/Merge.antt =====
-- What one sent namespace does to the namespaces that a server knows, in `server_unpack_procs` of
-- unit/test_server.c.
use mathlib.Core.List.{append_assoc}
use pmix_tests.Base.{
  ℕ, suc, ◌+◌, ◌^◌, ◌<◌, ◌≤◌, ◌≡◌, refl, sym, ap, ◌∙◌, true, Option, none, List, [], ◌∷◌, ◌++◌,
  arith, if◌then◌else◌, length, length-replicate, take_of_le, replicate, All, ok, ◌>>=◌, Bool-cases,
  inl, inr,
}
use pmix_tests.Base.Text.{CString, str_eq, eq_of_str_eq}
use pmix_tests.Server.Bytes.{
  int_size, size_t_size, put, put_name, read-put, NonZero, read_name-put_name,
}
use pmix_tests.Server.Procs.{
  ServerNspace, pack_ranks, pack_nspace, pack_nspaces, claim, update_nspace, unpack_nspace,
  unpack_nspaces,
}
use pmix_tests.Server.Procs.Ranks.{owned, merge_map, unpack-pack_ranks}

-- A namespace that server `id` may pack: its name fits, its map has an entry for each task, and
-- `ltasks` counts the entries of the server. All servers agree on the sizes of the namespaces.
pub record IsSent (max_nslen : ℕ) (size : CString → ℕ) (id : ℕ) (ns : ServerNspace) : Type 0 where
  pub name_fits : length ns.name ≤ max_nslen
  pub name_bytes : NonZero ns.name
  pub agreed : ns.ntasks ≡ size ns.name
  pub whole : length ns.task_map ≡ ns.ntasks
  pub few : ns.ntasks < 256 ^ int_size
  pub counted : ns.ltasks ≡ owned id ns.task_map

-- A namespace as a server keeps it.
pub record IsKnown (size : CString → ℕ) (ns : ServerNspace) : Type 0 where
  pub agreed : ns.ntasks ≡ size ns.name
  pub whole : length ns.task_map ≡ ns.ntasks

-- What a sent namespace does to those that a server knows.
abbrev pub merge_nspace : ℕ → ServerNspace → List ServerNspace → List ServerNspace
merge_nspace id ns [] =
    record ns { task_map = merge_map id ns.task_map (replicate ns.ntasks none) } ∷ []
merge_nspace id ns (t ∷ ts) =
    if str_eq ns.name t.name
    then record t { task_map = merge_map id ns.task_map t.task_map } ∷ ts
    else t ∷ merge_nspace id ns ts

abbrev pub merge_all : ℕ → List ServerNspace → List ServerNspace → List ServerNspace
merge_all id [] known = known
merge_all id (ns ∷ nss) known = merge_all id nss (merge_nspace id ns known)

length-merge_map : (id : ℕ) (src dst : List (Option ℕ)) → length (merge_map id src dst) ≡ length dst
length-merge_map id [] dst = refl
length-merge_map id (t ∷ ts) [] = refl
length-merge_map id (t ∷ ts) (d ∷ ds) = ap suc (length-merge_map id ts ds)

owned-le : (id : ℕ) (ts : List (Option ℕ)) → owned id ts ≤ length ts
owned-le id [] = omega arith
owned-le id (t ∷ ts) = ground (arith, owned-le id ts)

module _ (nl : ℕ) (size : CString → ℕ) where
  claim-merge :
      (id : ℕ) (ns t : ServerNspace) (rest : List ℕ)
      → IsSent nl size id ns
      → length t.task_map ≡ ns.ntasks
      → claim id ns.ltasks (pack_ranks id 0 ns.task_map ++ rest) t
        ≡ ok (record t { task_map = merge_map id ns.task_map t.task_map }, rest)
  claim-merge id ns t rest s l = rw s.counted (
      ap (λ r. r >>= λ (m, bs). ok (record t { task_map = m }, bs))
        (unpack-pack_ranks id rest ns.task_map t.task_map [] 0 refl (s.whole ∙ sym l)
          (omega (arith, s.whole, s.few))))

  same_size :
      (id : ℕ) (ns t : ServerNspace)
      → IsSent nl size id ns
      → IsKnown size t
      → str_eq ns.name t.name ≡ true
      → t.ntasks ≡ ns.ntasks
  same_size id ns t s k e = k.agreed ∙ ap size (sym (eq_of_str_eq ns.name t.name e)) ∙ sym s.agreed

  update-merge :
      (id : ℕ) (ns : ServerNspace) (rest : List ℕ) (known : List ServerNspace)
      → IsSent nl size id ns
      → All (IsKnown size) known
      → update_nspace nl ns.name ns.ntasks ns.ltasks
          (claim id ns.ltasks (pack_ranks id 0 ns.task_map ++ rest))
          known
        ≡ ok (merge_nspace id ns known, rest)
  unfolding update_nspace
  update-merge id ns rest [] s k = rw (
    take_of_le nl ns.name s.name_fits,
    claim-merge id ns (record ns { task_map = replicate ns.ntasks none }) rest s
        (length-replicate ns.ntasks none),
  )
  update-merge id ns rest (t ∷ ts) s k = elim (Bool-cases (str_eq ns.name t.name)) [
    | inl e ↦
        let same : t.ntasks ≡ ns.ntasks = same_size id ns t s k.0 e in
        ground (arith, claim-merge id ns t rest s (k.0.whole ∙ same))
    | inr e ↦ rw e (ground (arith, update-merge id ns rest ts s k.1))
  ]

  pack-rest :
      (id : ℕ) (ns : ServerNspace) (rest : List ℕ)
      → pack_nspace nl id ns ++ rest
        ≡ put int_size id
          ++ (put_name (nl + 1) ns.name
              ++ (put size_t_size ns.ntasks
                  ++ (put size_t_size ns.ltasks ++ (pack_ranks id 0 ns.task_map ++ rest))))
  unfolding pack_nspace
  pack-rest id ns rest = simp append_assoc

  -- A namespace goes over the wire and into what the receiver knows.
  unpack-pack_nspace :
      (id : ℕ) (ns : ServerNspace) (rest : List ℕ) (known : List ServerNspace)
      → id < 256 ^ int_size
      → IsSent nl size id ns
      → All (IsKnown size) known
      → unpack_nspace nl (pack_nspace nl id ns ++ rest) known ≡ ok (merge_nspace id ns known, rest)
  unfolding unpack_nspace
  unpack-pack_nspace id ns rest known small s k =
      let ranks = pack_ranks id 0 ns.task_map ++ rest in
      let b4 = put size_t_size ns.ltasks ++ ranks in
      let b3 = put size_t_size ns.ntasks ++ b4 in
      let few : ns.ltasks < 256 ^ size_t_size =
        omega (arith, s.counted, s.whole, s.few, owned-le id ns.task_map) in
      rw
        (
          pack-rest id ns rest,
          read-put int_size id (put_name (nl + 1) ns.name ++ b3) small,
          read_name-put_name (nl + 1) ns.name b3 (omega (arith, s.name_fits)) s.name_bytes,
          read-put size_t_size ns.ntasks b4 (omega (arith, s.few)),
          read-put size_t_size ns.ltasks ranks few,
        )
        (update-merge id ns rest known s k)

  merge_nspace-IsKnown :
      (id : ℕ) (ns : ServerNspace) (known : List ServerNspace)
      → IsSent nl size id ns
      → All (IsKnown size) known
      → All (IsKnown size) (merge_nspace id ns known)
  merge_nspace-IsKnown id ns [] s k = (
    record {
      agreed = s.agreed;
      whole =
          length-merge_map id ns.task_map (replicate ns.ntasks none)
          ∙ length-replicate ns.ntasks none;
    },
    tt,
  )
  merge_nspace-IsKnown id ns (t ∷ ts) s k = elim (Bool-cases (str_eq ns.name t.name)) [
    | inl e ↦ rw e (
      record {
        agreed = k.0.agreed;
        whole = length-merge_map id ns.task_map t.task_map ∙ k.0.whole;
      },
      k.1,
    )
    | inr e ↦ rw e (k.0, merge_nspace-IsKnown id ns ts s k.1)
  ]

  pub unpack-pack_nspaces :
      (id : ℕ) (nss : List ServerNspace) (rest : List ℕ) (known : List ServerNspace)
      → id < 256 ^ int_size
      → All (IsSent nl size id) nss
      → All (IsKnown size) known
      → unpack_nspaces nl (length nss) (pack_nspaces nl id nss ++ rest) known
        ≡ ok (merge_all id nss known, rest)
  unfolding unpack_nspaces pack_nspaces
  unpack-pack_nspaces id [] rest known small s k = refl
  unpack-pack_nspaces id (ns ∷ nss) rest known small s k =
      rw
        (
          append_assoc (pack_nspace nl id ns) (pack_nspaces nl id nss) rest,
          unpack-pack_nspace id ns (pack_nspaces nl id nss ++ rest) known small s.0 k,
        )
        (unpack-pack_nspaces id nss rest (merge_nspace id ns known) small s.1
          (merge_nspace-IsKnown id ns known s.0 k))

  pub merge_all-IsKnown :
      (id : ℕ) (nss known : List ServerNspace)
      → All (IsSent nl size id) nss
      → All (IsKnown size) known
      → All (IsKnown size) (merge_all id nss known)
  merge_all-IsKnown id [] known s k = k
  merge_all-IsKnown id (ns ∷ nss) known s k =
      merge_all-IsKnown id nss (merge_nspace id ns known) s.1
        (merge_nspace-IsKnown id ns known s.0 k)
