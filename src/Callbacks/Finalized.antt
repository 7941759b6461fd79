-- ===== src/Callbacks/Finalized.antt =====
-- `finalized` of unit/server_callbacks.c: which client it takes, what it does to it, and when it
-- reads memory that it must not read.
use pmix_tests.Base.{
  ℕ, ◌+◌, ◌≡◌, refl, ◌⊎◌, inl, inr, Bool, false, none, some, List, [], ◌∷◌, ◌++◌, arith,
  if◌then◌else◌, leb, ◌==◌, length, get_elem?, get_elem?-middle, set-middle, All, ok, fault,
}
use pmix_tests.Base.Text.{CString, str_eq, str_eq_refl}
use pmix_tests.Cli.{
  CliInfo, Stage, live, freed, forked, fin, term, state_num, same_ns, order, cli_finalize,
}
use pmix_tests.Cli.Table.{World}
use pmix_tests.Cli.Table.Kill.{InPhase}
use pmix_tests.Cli.Phases.{running, cli_finalize-forked}
use pmix_tests.Callbacks.{
  Server, reply_success, find_cli, at_entry, count_finalized, finalize_entry, finalized,
}

-- An entry that the search passes by: of another rank, or of another namespace whose name is there.
abbrev pub Passed : CString → ℕ → CliInfo → Type 0
Passed nspace rank c =
    ((rank == c.rank) ≡ false) ⊎ ((n : CString) × (c.ns ≡ live n) × (str_eq nspace n ≡ false))

module _ (nspace : CString) (rank : ℕ) where
  find_cli-none :
      (cs : List CliInfo) → All (Passed nspace rank) cs → find_cli nspace rank cs ≡ ok none
  unfolding find_cli same_ns
  find_cli-none [] h = refl
  find_cli-none (c ∷ cs) h = elim h.0 [
    | inl d ↦ rw (d, find_cli-none cs h.1)
    | inr p ↦ ground (arith, find_cli-none cs h.1, p.1, p.2)
  ]

  find_cli-hit :
      (pre rest : List CliInfo)
      → All (Passed nspace rank) pre
      → find_cli nspace rank rest ≡ ok (some 0)
      → find_cli nspace rank (pre ++ rest) ≡ ok (some (length pre))
  unfolding find_cli same_ns
  find_cli-hit [] rest h e = e
  find_cli-hit (c ∷ pre) rest h e = elim h.0 [
    | inl d ↦ rw (d, find_cli-hit pre rest h.1 e)
    | inr p ↦ ground (arith, find_cli-hit pre rest h.1 e, p.1, p.2)
  ]

  find_cli-fault :
      (pre rest : List CliInfo)
      → All (Passed nspace rank) pre
      → find_cli nspace rank rest ≡ fault
      → find_cli nspace rank (pre ++ rest) ≡ fault
  unfolding find_cli same_ns
  find_cli-fault [] rest h e = e
  find_cli-fault (c ∷ pre) rest h e = elim h.0 [
    | inl d ↦ rw (d, find_cli-fault pre rest h.1 e)
    | inr p ↦ ground (arith, find_cli-fault pre rest h.1 e, p.1, p.2)
  ]

finalize_at-middle :
    (w : World) (pre post : List CliInfo) (c : CliInfo)
    → w.table ≡ pre ++ c ∷ post
    → c.state ≡ forked
    → c.next_state ≡ order
    → at_entry (length pre) cli_finalize w
      ≡ ok (record w { table = pre ++ record c { state = fin } ∷ post })
unfolding at_entry
finalize_at-middle w pre post c t e o =
    let stage : Stage = record { cli = c; test_abort = w.test_abort; effects = w.effects } in
    ground (
      arith,
      get_elem?-middle pre c post,
      cli_finalize-forked stage e o,
      set-middle pre c (record c { state = fin }) post,
    )

module _ {V : Type 0} (nspace : CString) (rank : ℕ) (has_cb : Bool) (s : Server V) where
  -- Where no entry has the rank and the namespace, and none with the rank has lost its name,
  -- `finalized` changes nothing and does not call the callback.
  pub finalized-none :
      All (Passed nspace rank) s.world.table
      → finalized nspace rank has_cb s ≡ ok (s, reply_success false)
  unfolding finalized
  finalized-none h = rw (find_cli-none nspace rank s.world.table h)

  -- The first client with the rank and the namespace that is running becomes finalized, and no
  -- other entry changes; the callback is called, the count goes up by one, and the published data
  -- are released exactly when it reaches the number of clients.
  pub finalized-running :
      (pre post : List CliInfo) (c : CliInfo)
      → s.world.table ≡ pre ++ c ∷ post
      → All (Passed nspace rank) pre
      → rank ≡ c.rank
      → c.ns ≡ live nspace
      → InPhase c running
      → finalized nspace rank has_cb s
        ≡ ok (
          record s {
            world = record s.world { table = pre ++ record c { state = fin } ∷ post };
            finalized_count = s.finalized_count + 1;
            published =
                if s.finalized_count + 1 == length (pre ++ record c { state = fin } ∷ post)
                then none
                else s.published;
          },
          reply_success has_cb,
        )
  finalized-running pre post c t h r n p =
      let here : find_cli nspace rank (c ∷ post) ≡ ok (some 0) =
        unfold find_cli same_ns in ground (arith, r, n, str_eq_refl nspace) in
      let found : find_cli nspace rank s.world.table ≡ ok (some (length pre)) =
        rw t (find_cli-hit nspace rank pre (c ∷ post) h here) in
      let entry : get_elem? s.world.table (length pre) ≡ some c =
        rw t (get_elem?-middle pre c post) in
      let early : leb (state_num term) (state_num c.state) ≡ false =
        rw p.state (unfold state_num in refl) in
      unfold finalized finalize_entry in
      unfold count_finalized in
      ground (arith, found, entry, early, finalize_at-middle s.world pre post c t p.state p.table)

  -- `finalized` reads a freed string whenever a client of the same rank, in whatever namespace,
  -- comes first in the table and has terminated with its name freed.
  pub finalized-freed :
      (pre post : List CliInfo) (c : CliInfo) (name : CString)
      → s.world.table ≡ pre ++ c ∷ post
      → All (Passed nspace rank) pre
      → rank ≡ c.rank
      → c.ns ≡ freed name
      → finalized nspace rank has_cb s ≡ fault
  unfolding finalized
  finalized-freed pre post c name t h r n =
      let here : find_cli nspace rank (c ∷ post) ≡ fault =
        unfold find_cli same_ns in ground (arith, r, n) in
      rw (t, find_cli-fault nspace rank pre (c ∷ post) h here)
