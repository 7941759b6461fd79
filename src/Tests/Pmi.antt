-- ===== src/Tests/Pmi.antt =====
-- The PMI clients of unit/pmi_client.c and unit/pmi2_client.c with small libraries.
use pmix_tests.Base.{
  ℕ, zero, suc, ◌+◌, ◌≡◌, ◌↔◌, refl, true, false, Option, none, some, List, [], ◌∷◌, ◌++◌, arith,
  length, if◌then◌else◌,
}
use pmix_tests.Base.Int.{ℤ, pos, negsuc}
use pmix_tests.Base.Text.{CString, codes, str_eq}
use pmix_tests.Options.Numbers.{print_int, digits}
use pmix_tests.Pmi.{Numbered, Job, Client, next, Answer, returned, main, key_of, value_of}
use pmix_tests.Pmi.Rounds.{main_ok_iff, RanWell}
use pmix_tests.Pmi.Pmi2.{Library, start, finish}
use pmix_tests.Pmi.Pmi2.Store.{put_fence_get, put_loop, get_loop}
use pmix_tests.Pmi.Pmi2.Store.Verdict.{
  put_fence_get-last, fenced, last_stored, all_mismatches, IsStored,
}
use pmix_tests.Pmi.Pmi2.Many.{items, fence_rounds, many_key}
use pmix_tests.Pmi.Pmi2.Many.Symbols.{
  fence_rounds-counts, RoundsAnswer, after_rounds, symbol, PutsSucceed, put_values, RanksAnswer,
  AnswersValues, misses, all_misses, after_answers,
}
use pmix_tests.Pmi.Pmi2.Many.Blind.{Succeeds}
use pmix_tests.Pmi.Pmi1
use pmix_tests.Pmi.Pmi1.{test_item1, test_item4}
use pmix_tests.Pmi.Pmi1.Verdict.{Names}

abbrev Store : Type 0
Store = List (CString × CString)

abbrev find : CString → Store → Option CString
find key [] = none
find key ((k, v) ∷ l) = if str_eq key k then some v else find key l

abbrev stored : Store → Option CString → Answer Store (CString × ℤ)
stored l none = record { rc = negsuc 0; out = ([], pos 0); after = l }
stored l (some v) = record { rc = pos 0; out = (v, pos (length v)); after = l }

abbrev fine : {L A : Type 0} → A → L → Answer L A
fine a l = record { rc = pos 0; out = a; after = l }

abbrev two_ranks : Job
two_ranks = record { spawned = pos 0; size = pos 2; rank = pos 0; appnum = pos 0 }

-- A library with a store, for rank 0 of 2; the fence brings `peer`, the data of rank 1.
abbrev toy : Store → Library Store
toy peer = record {
  init = λ job l. fine two_ranks l;
  finalize = λ l. fine tt l;
  initialized = λ l. true;
  job_get_id = λ id n l. fine (codes "job") l;
  job_get_rank = λ r l. fine (pos 0) l;
  info_get_size = λ n l. fine (pos 2) l;
  info_get_job_attr = λ key n l. fine ([], false) l;
  info_get_node_attr = λ key n w l. fine ([], false) l;
  info_put_node_attr = λ key val l. fine tt l;
  kvs_put = λ key val l. fine tt ((key, val) ∷ l);
  kvs_fence = λ l. fine tt (peer ++ l);
  kvs_get = λ jobid id key n l. stored l (find key l);
}

abbrev client : Client Store
client = record { job = two_ranks; jobid = codes "job"; legacy = false; fatal = 0; library = [] }

-- Rank 1 has put a value that is not the one that the client expects.
abbrev wrong_peer : Store
wrong_peer = (codes "KEY-1", codes "VALUE-2") ∷ []

abbrev toy_items : List (Numbered Store)
toy_items = items (toy []) 1024 (negsuc 0) (codes "jobid.txt") 1 40

main_ok_iff_example :
    ((main (start (toy []) two_ranks true) (finish (toy [])) toy_items (pos 10) client).0 ≡ pos 0)
    ↔ (((start (toy []) two_ranks true client).0 ≡ pos 0)
        × ((t : Client Store) × RanWell
              (pos 10)
              toy_items
              (start (toy []) two_ranks true client).1
              t
            × ((finish (toy []) t).0 ≡ pos 0)))
main_ok_iff_example =
    main_ok_iff (start (toy []) two_ranks true) (finish (toy [])) toy_items (pos 10) client

abbrev exchanged : ℤ × Client Store
exchanged = returned (put_fence_get (toy wrong_peer) 1024 (negsuc 0) (λ i. i) client)

put_fence_get-last_example :
    ((exchanged.0 ≡ pos 0)
      ↔ IsStored (value_of (pos 1)) (
          last_stored
            (toy wrong_peer)
            1024
            (negsuc 0)
            (λ i. i)
            (codes "job")
            1
            0
            (fenced (toy wrong_peer) 1024 (negsuc 0) (λ i. i) 1 0 client refl refl).after))
    × (exchanged.1.fatal
        ≡ 0
          + all_mismatches
              (toy wrong_peer)
              1024
              (negsuc 0)
              (λ i. i)
              (codes "job")
              2
              0
              (fenced (toy wrong_peer) 1024 (negsuc 0) (λ i. i) 1 0 client refl refl).after)
unfolding str_eq key_of print_int digits
put_fence_get-last_example =
    put_fence_get-last (toy wrong_peer) 1024 (negsuc 0) (λ i. i) 1 0 client refl refl (omega arith)
      refl refl (refl, (refl, tt))

-- A wrong value of the last rank is noticed.
wrong_peer_fails : exchanged.0 ≡ negsuc 0
unfolding str_eq key_of print_int digits put_fence_get put_loop get_loop value_of
wrong_peer_fails = refl

abbrev own_wrong : Store
own_wrong = (codes "KEY-1", codes "VALUE-1") ∷ (codes "KEY-0", codes "VALUE-9") ∷ []

-- A wrong value of another rank is not.
own_wrong_passes :
    (returned (put_fence_get (toy own_wrong) 1024 (negsuc 0) (λ i. i) client)).0 ≡ pos 0
unfolding str_eq key_of print_int digits put_fence_get put_loop get_loop value_of
own_wrong_passes = refl

abbrev sized : ℤ → Client Store
sized n = record client { job = record two_ranks { size = n } }

-- Rank 1 has drawn a size of 2 where rank 0 has drawn 3: its key gives two messages.
abbrev drawn : ℕ → ℕ
drawn zero = 3
drawn (suc r) = 2

abbrev shorter_peer : Store
shorter_peer = (codes "RANK1-key-0", codes "aa") ∷ []

fence_rounds-counts_example :
    fence_rounds (toy shorter_peer) 1024 3 1 1 0 (symbol 0) (pos 0) (sized (pos 2)) ≡ (
      next (pos 0),
      record (sized (pos 2)) {
        library = after_rounds (toy shorter_peer) 1024 3 drawn (codes "job") (pos 0) 2 1 1 0 [];
        fatal = 2;
      },
    )
unfolding str_eq many_key print_int digits RoundsAnswer PutsSucceed put_values RanksAnswer
    AnswersValues after_answers value_of all_misses misses
fence_rounds-counts_example =
    fence_rounds-counts (toy shorter_peer) 1024 3 drawn 1 1 0 (sized (pos 2))
      ((refl, tt), refl, ((refl, refl, refl, tt), ((refl, refl, refl, tt), tt)), tt)

-- A library that answers every Get with nothing.
abbrev deaf : Library Store
deaf = record (toy []) { kvs_get = λ jobid id key n l. fine ([], pos 0) l }

deaf-Succeeds : Succeeds deaf
deaf-Succeeds = record {
  put = λ key val l. refl;
  fence = λ l. refl;
  get = λ jobid id key n l. refl;
}

-- A PMI-1 library that answers a size below the rank and a clique of ranks that are not of the job.
abbrev odd : Pmi1.Library Store
odd = record {
  init = λ s l. fine (pos 0) l;
  finalize = λ l. fine tt l;
  initialized = λ l. fine (pos 1) l;
  get_size = λ n l. fine (pos 2) l;
  get_rank = λ n l. fine (pos 5) l;
  get_appnum = λ n l. fine (pos 0) l;
  get_universe_size = λ n l. fine (pos 9) l;
  get_id_length_max = λ n l. fine (pos 1) l;
  get_id = λ id n l. fine (codes "job") l;
  get_kvs_domain_id = λ id n l. fine (codes "job") l;
  kvs_get_my_name = λ id n l. fine (codes "job") l;
  kvs_get_key_length_max = λ n l. fine (pos 511) l;
  kvs_get_value_length_max = λ n l. fine (pos 4096) l;
  get_clique_size = λ n l. fine (pos 3) l;
  get_clique_ranks = λ ranks n l. fine (pos 7 ∷ negsuc 0 ∷ pos 8 ∷ []) l;
  kvs_put = λ jobid key val l. fine tt ((key, val) ∷ l);
  kvs_get = λ jobid key n l. fine [] l;
  kvs_commit = λ jobid l. fine tt l;
  barrier = λ l. fine tt l;
}

odd-Names : Names odd
unfolding str_eq
odd-Names = record {
  size = λ i l. refl;
  rank = λ i l. refl;
  appnum = λ i l. refl;
  universe = λ i l. refl;
  id_length = λ i l. refl;
  id = λ s n l. refl;
  domain = λ s n l. refl;
  my_name = λ s n l. refl;
  other = λ s n l. refl;
}
