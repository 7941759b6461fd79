-- ===== src/Server/Procs/Exchange.antt =====
-- The exchange of the process maps in unit/test_server.c: a server reads the messages that the
-- servers packed, one behind the other as server 0 puts them together.
use mathlib.Core.List.{append_assoc}
use native.Mathlib.Nat.{le_refl}
use pmix_tests.Base.{
  ℕ, zero, suc, ◌+◌, ◌*◌, ◌^◌, ◌<◌, ◌≤◌, ◌≡◌, refl, List, [], ◌∷◌, ◌++◌, arith, length,
  length-append, All, ok, ◌>>=◌,
}
use pmix_tests.Base.Text.{CString}
use pmix_tests.Server.Bytes.{int_size, size_t_size, put, length-put, read-put, length-put_name}
use pmix_tests.Server.Procs.{
  ServerNspace, pack_nspace, pack_nspaces, ranks_size, buf_size, server_pack_procs, unpack_nspaces,
  unpack_loop, server_unpack_procs,
}
use pmix_tests.Server.Procs.Ranks.{length-pack_ranks}
use pmix_tests.Server.Procs.Merge.{
  unpack-pack_nspaces, merge_all-IsKnown, IsSent, IsKnown, merge_all,
}

module _ (nl : ℕ) (size : CString → ℕ) where
  length-pack_nspace :
      (id : ℕ) (ns : ServerNspace)
      → IsSent nl size id ns
      → length (pack_nspace nl id ns) ≡ (nl + 1) + (20 + 4 * ns.ltasks)
  unfolding pack_nspace
  length-pack_nspace id ns s = simp length-append (
      omega (
        arith,
        length-put int_size id,
        length-put_name (nl + 1) ns.name (omega (arith, s.name_fits)),
        length-put size_t_size ns.ntasks,
        length-put size_t_size ns.ltasks,
        length-pack_ranks id 0 ns.task_map,
        s.counted,
      ))

  length-pack_nspaces :
      (id : ℕ) (nss : List ServerNspace)
      → All (IsSent nl size id) nss
      → length (pack_nspaces nl id nss) ≡ (nl + 1) * length nss + ranks_size nss
  unfolding pack_nspaces ranks_size
  length-pack_nspaces id [] s = omega arith
  length-pack_nspaces id (ns ∷ nss) s = omega (
    arith,
    length-append (pack_nspace nl id ns) (pack_nspaces nl id nss),
    length-pack_nspace id ns s.0,
    length-pack_nspaces id nss s.1,
  )

  -- The bytes that a server sends: the assertion on the size of its buffer holds.
  pub server_pack_procs-ok :
      (id : ℕ) (ns : ServerNspace) (nss : List ServerNspace)
      → All (IsSent nl size id) (ns ∷ nss)
      → server_pack_procs nl id (ns ∷ nss)
        ≡ ok (put size_t_size (length (ns ∷ nss)) ++ pack_nspaces nl id (ns ∷ nss))
  unfolding server_pack_procs buf_size
  server_pack_procs-ok id ns nss s = ground (
    arith,
    length-pack_nspaces id (ns ∷ nss) s,
    length-put size_t_size (suc (length nss)),
    length-append (put size_t_size (suc (length nss))) (pack_nspaces nl id (ns ∷ nss)),
  )

  -- What a server sends: nothing where it knows no namespace.
  abbrev pub sent : ℕ → List ServerNspace → List ℕ
  sent id [] = []
  sent id (ns ∷ nss) = put size_t_size (length (ns ∷ nss)) ++ pack_nspaces nl id (ns ∷ nss)

  abbrev pub sent_all : List (ℕ × List ServerNspace) → List ℕ
  sent_all [] = []
  sent_all ((id, nss) ∷ ms) = sent id nss ++ sent_all ms

  abbrev pub IsSentBy : ℕ × List ServerNspace → Type 0
  IsSentBy (id, nss) =
      (id < 256 ^ int_size) × (length nss < 256 ^ size_t_size) × All (IsSent nl size id) nss

  loop_step :
      (fuel n : ℕ) (bs : List ℕ) (known : List ServerNspace)
      → n < 256 ^ size_t_size
      → unpack_loop nl (suc fuel) (put size_t_size n ++ bs) known
        ≡ (unpack_nspaces nl n bs known >>= λ (nss, rest). unpack_loop nl fuel rest nss)
  unfolding unpack_loop put
  loop_step fuel n bs known h = rw (read-put size_t_size n bs h)

  abbrev pub merge_msgs : List (ℕ × List ServerNspace) → List ServerNspace → List ServerNspace
  merge_msgs [] known = known
  merge_msgs ((id, nss) ∷ ms) known = merge_msgs ms (merge_all id nss known)

  sent-long :
      (id : ℕ) (ns : ServerNspace) (nss : List ServerNspace) (rest : List ℕ)
      → length rest < length (sent id (ns ∷ nss) ++ rest)
  sent-long id ns nss rest = omega (
    arith,
    length-append (sent id (ns ∷ nss)) rest,
    length-append (put size_t_size (suc (length nss))) (pack_nspaces nl id (ns ∷ nss)),
    length-put size_t_size (suc (length nss)),
  )

  unpack_loop-sent :
      (ms : List (ℕ × List ServerNspace)) (known : List ServerNspace) (fuel : ℕ)
      → All IsSentBy ms
      → All (IsKnown size) known
      → length (sent_all ms) ≤ fuel
      → unpack_loop nl fuel (sent_all ms) known ≡ ok (merge_msgs ms known)
  unpack_loop-sent [] known fuel s k h = unfold unpack_loop in refl
  unpack_loop-sent ((id, []) ∷ ms) known fuel s k h = unpack_loop-sent ms known fuel s.1 k h
  unpack_loop-sent ((id, ns ∷ nss) ∷ ms) known zero s k h =
      absurd (omega (arith, sent-long id ns nss (sent_all ms)))
  unpack_loop-sent ((id, ns ∷ nss) ∷ ms) known (suc fuel) s k h =
      let n = length (ns ∷ nss) in
      let bs = pack_nspaces nl id (ns ∷ nss) in
      let (small, count, all) = s.0 in
      rw
        (
          append_assoc (put size_t_size n) bs (sent_all ms),
          loop_step fuel n (bs ++ sent_all ms) known count,
          unpack-pack_nspaces nl size id (ns ∷ nss) (sent_all ms) known small all k,
        )
        (unpack_loop-sent ms (merge_all id (ns ∷ nss) known) fuel s.1
          (merge_all-IsKnown nl size id (ns ∷ nss) known all k)
          (omega (arith, sent-long id ns nss (sent_all ms))))

  -- A server that reads the messages of the others, in the order in which server 0 put them
  -- together, ends with the namespaces and task maps that these messages make known: every
  -- namespace by its name, and for each rank the first server that claimed it.
  pub server_unpack_procs-sent :
      (ms : List (ℕ × List ServerNspace)) (known : List ServerNspace)
      → All IsSentBy ms
      → All (IsKnown size) known
      → server_unpack_procs nl (sent_all ms) known ≡ ok (merge_msgs ms known)
  unfolding server_unpack_procs
  server_unpack_procs-sent ms known s k =
      unpack_loop-sent ms known (length (sent_all ms)) s k (le_refl _)
