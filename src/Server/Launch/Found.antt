-- ===== src/Server/Launch/Found.antt =====
-- What the servers of unit/test_server.c know after `server_launch_clients` has made an entry on
-- each of them and they have exchanged their process maps, and `server_find_id` on it.
use pmix_tests.Base.{
  ℕ, ◌+◌, ◌-◌, ◌^◌, ◌≤◌, ◌<◌, ◌≡◌, refl, sym, ap, ◌∙◌, true, some, List, [], ◌∷◌, ◌++◌, map, arith,
  if◌then◌else◌, get_elem?, length, All, ok, ◌>>=◌,
}
use pmix_tests.Base.Text.{CString, str_eq, str_eq_refl}
use pmix_tests.Server.Bytes.{int_size, NonZero}
use pmix_tests.Server.Shares.{lsize, base_rank, Owned}
use pmix_tests.Server.Procs.{ServerNspace, server_unpack_procs}
use pmix_tests.Server.Procs.Ranks.{merge_map}
use pmix_tests.Server.Procs.Merge.{IsSent, IsKnown, merge_nspace}
use pmix_tests.Server.Procs.Exchange.{sent_all, IsSentBy, merge_msgs, server_unpack_procs-sent}
use pmix_tests.Server.Requests.{server_find_id, get_owner}
use pmix_tests.Server.Launch.Maps.{entry, share_end, merged, has_id, start_found}
use pmix_tests.Server.Launch.{register_nspace, claim_ranks-share, owned-share_map, length-share_map}

module _ (name : CString) (nprocs nservers : ℕ) where
  -- `server_launch_clients` makes this entry, on every server.
  pub register_nspace-entry :
      (i : ℕ) (known : List ServerNspace)
      → i < nservers
      → register_nspace name (lsize nprocs nservers i) nprocs (base_rank nprocs nservers i) i known
        ≡ ok (known ++ entry name nprocs nservers i ∷ [])
  unfolding register_nspace
  register_nspace-entry i known h =
      let base = base_rank nprocs nservers i in
      let size = lsize nprocs nservers i in
      let e : base + (size + (nprocs - (base + size))) ≡ nprocs =
        omega (arith, share_end name nprocs nservers i h) in
      rw (rw e at (claim_ranks-share base size (nprocs - (base + size)) i)) refl

  entry-IsSent :
      (nl i : ℕ)
      → i < nservers
      → length name ≤ nl
      → NonZero name
      → nprocs < 256 ^ int_size
      → IsSent nl (λ _. nprocs) i (entry name nprocs nservers i)
  entry-IsSent nl i h fits z few =
      let base = base_rank nprocs nservers i in
      let size = lsize nprocs nservers i in
      record {
        name_fits = fits;
        name_bytes = z;
        agreed = refl;
        whole = omega (
          arith,
          length-share_map base size (nprocs - (base + size)) i,
          share_end name nprocs nservers i h,
        );
        few = few;
        counted = sym (owned-share_map base size (nprocs - (base + size)) i);
      }

  abbrev pub messages : List ℕ → List (ℕ × List ServerNspace)
  messages = map (λ i. (i, entry name nprocs nservers i ∷ []))

  merge_msgs-merged :
      (nl : ℕ) (is : List ℕ) (t : ServerNspace)
      → t.name ≡ name
      → merge_msgs nl (λ _. nprocs) (messages is) (t ∷ [])
        ≡ record t { task_map = merged name nprocs nservers is t.task_map } ∷ []
  merge_msgs-merged nl [] t e = refl
  merge_msgs-merged nl (i ∷ is) t e =
      let same : str_eq name t.name ≡ true = rw e (str_eq_refl name) in
      let next : ServerNspace = record t {
        task_map = merge_map i (entry name nprocs nservers i).task_map t.task_map;
      } in
      let step : merge_nspace i (entry name nprocs nservers i) (t ∷ []) ≡ next ∷ [] =
        ap (λ b. if b then next ∷ [] else t ∷ merge_nspace i (entry name nprocs nservers i) [])
          same in
      ap (merge_msgs nl (λ _. nprocs) (messages is)) step ∙ merge_msgs-merged nl is next e

  messages-IsSentBy :
      (nl : ℕ) (is : List ℕ)
      → All (λ i. (i < nservers) × (i < 256 ^ int_size)) is
      → length name ≤ nl
      → NonZero name
      → nprocs < 256 ^ int_size
      → All (IsSentBy nl (λ _. nprocs)) (messages is)
  messages-IsSentBy nl [] h fits z few = tt
  messages-IsSentBy nl (i ∷ is) h fits z few = (
    (h.0.1, omega arith, (entry-IsSent nl i h.0.0 fits z few, tt)),
    messages-IsSentBy nl is h.1 fits z few,
  )

  -- Each server has made the entry of its share of the job, and server `self` has read the entries
  -- of the servers `is`, in the order in which server 0 put them together. It then finds the
  -- server of every rank that one of these or itself runs. The number of ranks and the ids fit in
  -- an `int`, and the name of the namespace fits in its array.
  pub server_find_id-exchanged :
      (nl self o r : ℕ) (is : List ℕ)
      → self < nservers
      → All (λ i. (i < nservers) × (i < 256 ^ int_size)) is
      → r < nprocs
      → Owned nprocs nservers r o
      → has_id o (self ∷ is) ≡ true
      → length name ≤ nl
      → NonZero name
      → nprocs < 256 ^ int_size
      → (server_unpack_procs nl
            (sent_all nl (λ _. nprocs) (messages is))
            (entry name nprocs nservers self ∷ [])
          >>= server_find_id name r)
        ≡ ok (some o)
  unfolding server_find_id get_owner
  server_find_id-exchanged nl self o r is hs hi h own among fits z few =
      let base = base_rank nprocs nservers self in
      let size = lsize nprocs nservers self in
      let k : IsKnown (λ _. nprocs) (entry name nprocs nservers self) = record {
        agreed = refl;
        whole = omega (
          arith,
          length-share_map base size (nprocs - (base + size)) self,
          share_end name nprocs nservers self hs,
        );
      } in
      let found : get_elem?
            (merged name nprocs nservers is (entry name nprocs nservers self).task_map) r
          ≡ some (some o) =
        start_found name nprocs nservers self o r is h own among in
      rw
        (
          server_unpack_procs-sent nl (λ _. nprocs) (messages is)
              (entry name nprocs nservers self ∷ []) (messages-IsSentBy nl is hi fits z few)
              (k, tt),
          merge_msgs-merged nl is (entry name nprocs nservers self) refl,
          str_eq_refl name,
          found,
        )
        refl
