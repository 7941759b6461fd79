-- ===== src/Driver/Launched.antt =====
-- What the loop of `server_launch_clients` in unit/test_server.c does to the table of clients when
-- every call of it succeeds.
use mathlib.Core.List.{append_assoc}
use pmix_tests.Base.{
  ℕ, zero, suc, ◌+◌, ◌≤◌, ◌<◌, ◌≡◌, refl, ap, ◌∙◌, inl, inr, true, false, none, some, List, [], ◌∷◌,
  ◌++◌, arith, Option-cases, length, length-append, length-set, get_elem?, get_elem?-middle, set,
  set-middle, Run, ok, fault, ◌>>=◌,
}
use pmix_tests.Base.Int.{ℤ, pos, eqb}
use pmix_tests.Base.Text.{CString}
use pmix_tests.Cli.{CliInfo, Stage, live}
use pmix_tests.Cli
use pmix_tests.Cli.Phases.{launch, client_step}
use pmix_tests.Cli.Table.{World}
use pmix_tests.Callbacks.{at_entry}
use pmix_tests.Driver.{
  Harness, Answers, LaunchEnd, returned, set_world, enter_client, forked, launch_loop,
}

-- The entry of a client that was forked.
abbrev pub launched_cli : ℤ → ℕ → CString → CliInfo → CliInfo
launched_cli p rank name c = record c { pid = p; rank = rank; ns = live name; state = Cli.forked }

launch-inside :
    (p : ℤ) (rank : ℕ) (name : CString) (i : ℕ) (w : World) (c : CliInfo)
    → get_elem? w.table i ≡ some c
    → at_entry i (client_step (launch p rank name)) w
      ≡ ok (record w { table = set w.table i (launched_cli p rank name c) })
unfolding at_entry client_step
launch-inside p rank name i w c e = rw (e, at_entry) refl

launch-outside :
    (f : Stage → Run Stage) (i : ℕ) (w : World)
    → get_elem? w.table i ≡ none
    → at_entry i f w ≡ fault
unfolding at_entry
launch-outside f i w e = rw (e, at_entry) refl

get_elem?-bound :
    (table : List CliInfo) (i : ℕ) (c : CliInfo) → get_elem? table i ≡ some c → i < length table
get_elem?-bound [] i c e = absurd (grind arith)
get_elem?-bound (d ∷ ds) zero c e = omega arith
get_elem?-bound (d ∷ ds) (suc i) c e = omega (arith, get_elem?-bound ds i c e)

module _ {V : Type 0} where
  abbrev pub with_table : List CliInfo → ℕ → Harness V → Harness V
  with_table table counter h = record h {
    server = record h.server { world = record h.server.world { table = table } };
    cli_counter = counter;
  }

  abbrev counted : Harness V → World → Run (Harness V)
  counted h w = ok (record (set_world w h) { cli_counter = suc h.cli_counter })

  enter-inside :
      (p : ℤ) (rank : ℕ) (name : CString) (h : Harness V) (c : CliInfo)
      → get_elem? h.server.world.table h.cli_counter ≡ some c
      → enter_client p rank name h
        ≡ ok (
            with_table
              (set h.server.world.table h.cli_counter (launched_cli p rank name c))
              (suc h.cli_counter)
              h)
  unfolding enter_client
  enter-inside p rank name h c e =
      ap (λ r. r >>= counted h) (launch-inside p rank name h.cli_counter h.server.world c e)

  enter-outside :
      (p : ℤ) (rank : ℕ) (name : CString) (h : Harness V)
      → get_elem? h.server.world.table h.cli_counter ≡ none
      → enter_client p rank name h ≡ fault
  unfolding enter_client
  enter-outside p rank name h e =
      ap (λ r. r >>= counted h)
        (launch-outside (client_step (launch p rank name)) h.cli_counter h.server.world e)

not_zero : (n : ℕ) → eqb (pos (suc n)) (pos 0) ≡ false
not_zero n = ground arith

-- Every call for a client succeeds.
abbrev pub succeeding : (ℕ → ℕ) → ℕ → Answers
succeeding pids n = record { registered = true; setup_fork = pos 0; fork = pos (suc (pids n)) }

-- The entries of the clients from number `n` on.
abbrev pub launched_all : (ℕ → ℕ) → ℕ → CString → ℕ → List CliInfo → List CliInfo
launched_all pids base_rank name n [] = []
launched_all pids base_rank name n (c ∷ cs) =
    launched_cli (pos (suc (pids n))) (base_rank + n) name c
    ∷ launched_all pids base_rank name (suc n) cs

module _ {V : Type 0} (base_argv : List CString) (univ_size base_rank : ℕ) (name : CString)
    (pids : ℕ → ℕ) where
  abbrev launches : ℕ → ℕ → Harness V → Run (LaunchEnd × Harness V)
  launches = launch_loop base_argv univ_size base_rank name (succeeding pids)

  launch_round :
      (k n : ℕ) (h : Harness V)
      → launches (suc k) n h
        ≡ (enter_client (pos (suc (pids n))) (base_rank + n) name h >>= launches k (suc n))
  unfolding launch_loop forked
  launch_round k n h = rw (not_zero (pids n)) refl

  -- When every call succeeds and the table has entries `cs` for the clients behind those that are
  -- launched already, the loop enters the process id, the rank and the name of each client in its
  -- entry, in order, changes no other entry, and returns how many clients there are.
  pub launch_loop-launched_all :
      (cs pre post : List CliInfo) (n : ℕ) (h : Harness V)
      → launches (length cs) n (with_table (pre ++ (cs ++ post)) (length pre) h)
        ≡ ok (
          returned (pos (n + length cs)),
          record (with_table
              (pre ++ (launched_all pids base_rank name n cs ++ post))
              (length pre + length cs)
              h) { num_ns = suc h.num_ns },
        )
  unfolding launch_loop
  launch_loop-launched_all [] pre post n h =
      let a : n + 0 ≡ n = omega arith in
      let b : length pre + 0 ≡ length pre = omega arith in rw (a, b) refl
  launch_loop-launched_all (c ∷ cs) pre post n h =
      let p = pos (suc (pids n)) in
      let new = launched_cli p (base_rank + n) name c in
      let len : length (pre ++ new ∷ []) ≡ suc (length pre) =
        omega (arith, length-append pre (new ∷ [])) in
      let a : n + suc (length cs) ≡ suc n + length cs = omega arith in
      let b : length pre + suc (length cs) ≡ suc (length pre) + length cs = omega arith in
      launch_round (length cs) n (with_table (pre ++ (c ∷ (cs ++ post))) (length pre) h)
      ∙ ap (λ r. r >>= launches (length cs) (suc n))
          (enter-inside p (base_rank + n) name
            (with_table (pre ++ (c ∷ (cs ++ post))) (length pre) h) c
            (get_elem?-middle pre c (cs ++ post)))
      ∙ rw (a, b, set-middle pre c new (cs ++ post))
          (rw
            (
              len,
              append_assoc pre (new ∷ []) (cs ++ post),
              append_assoc pre (new ∷ []) (launched_all pids base_rank name (suc n) cs ++ post),
            )
            at (launch_loop-launched_all cs (pre ++ new ∷ []) post (suc n) h))

  -- When every call succeeds and the table has too few entries for the clients, the loop writes
  -- past its end.
  pub launch_loop-fault :
      (k n : ℕ) (h : Harness V)
      → h.cli_counter ≤ length h.server.world.table
      → length h.server.world.table < h.cli_counter + k
      → launches k n h ≡ fault
  launch_loop-fault zero n h le lt = absurd (omega arith)
  launch_loop-fault (suc k) n h le lt =
      let p = pos (suc (pids n)) in
      let w = h.server.world in
      launch_round k n h ∙ elim (Option-cases (get_elem? w.table h.cli_counter)) [
        | inl e ↦ ap (λ r. r >>= launches k (suc n)) (enter-outside p (base_rank + n) name h e)
        | inr (c, e) ↦
            let new = launched_cli p (base_rank + n) name c in
            let len : length (set w.table h.cli_counter new) ≡ length w.table =
              length-set w.table h.cli_counter new in
            let inside : h.cli_counter < length w.table =
              get_elem?-bound w.table h.cli_counter c e in
            ap (λ r. r >>= launches k (suc n)) (enter-inside p (base_rank + n) name h c e)
            ∙ launch_loop-fault k (suc n)
                (with_table (set w.table h.cli_counter new) (suc h.cli_counter) h)
                (omega (arith, len, inside)) (omega (arith, len, lt))
      ]
