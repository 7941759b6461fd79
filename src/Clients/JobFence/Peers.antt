-- ===== src/Clients/JobFence/Peers.antt =====
-- What `get_local_peers` of unit/test_fence.c makes of the text with the ranks of a node.
use pmix_tests.Base.{
  ℕ, suc, ◌+◌, ◌≤◌, ◌≡◌, refl, ◌∙◌, inl, inr, Bool, true, ◌&&◌, some, List, [], ◌∷◌, ◌++◌, ◌==◌,
  leb, ltb, length, arith, if◌then◌else◌, Bool-cases, and_parts,
}
use mathlib.Core.List.{append-nil, append_assoc}
use pmix_tests.Base.Text.{CString}
use pmix_tests.Base.Status.{success, error}
use pmix_tests.Options.Numbers.{strtol, to_u32}
use pmix_tests.Options.Ranges.{tokens}
use pmix_tests.Clients.{uint32, string, Step, next, leave, crashes, Library}
use pmix_tests.Clients.JobFence.{Constants, is_whole, peers_loop, get_local_peers}

abbrev pub all_whole : List CString → Bool
all_whole [] = true
all_whole (t ∷ ts) = is_whole t && all_whole ts

abbrev pub ranks_of : List CString → List ℕ
ranks_of [] = []
ranks_of (t ∷ ts) = to_u32 (strtol t) ∷ ranks_of ts

-- What comes of `n` whole numbers in all for an array of `npeers`.
abbrev pub outcome : ℕ → ℕ → List ℕ → Step (List ℕ)
outcome npeers n ranks =
    if ltb npeers n then crashes else if n == npeers then next ranks else leave error

peers_loop-outcome :
    {L : Type 0} (npeers : ℕ) (ts : List CString) (peers : List ℕ) (count n : ℕ) (l : L)
    → all_whole ts ≡ true
    → count ≤ npeers
    → n ≡ count + length ts
    → peers_loop npeers ts peers count l ≡ (outcome npeers n (peers ++ ranks_of ts), l)
unfolding peers_loop
peers_loop-outcome npeers [] peers count n l whole le e = rw (append-nil peers) (ground arith)
peers_loop-outcome npeers (t ∷ ts) peers count n l whole le e =
    let (here, more) = and_parts (is_whole t) (all_whole ts) whole in
    elim (Bool-cases (leb npeers count)) [
      | inl full ↦ ground arith
      | inr free ↦
          rw (free, here)
            (peers_loop-outcome npeers ts (peers ++ to_u32 (strtol t) ∷ []) (suc count) n l more
                (ground arith) (ground arith)
              ∙ rw (append_assoc peers (to_u32 (strtol t) ∷ []) (ranks_of ts)) refl)
    ]

module _ {L F : Type 0} (lib : Library L F) (k : Constants) where
  -- When the library answers a local size of `npeers` and a text of whole numbers, `get_local_peers`
  -- gives the ranks of the text if there are `npeers` of them and PMIX_ERROR if there are fewer; if
  -- there are more, it writes behind the end of its array: its test of the count comes too late.
  pub get_local_peers-outcome :
      (nspace text : CString) (npeers : ℕ) (l l1 l2 : L)
      → lib.get (record { nspace = nspace; rank = k.rank_wildcard }) k.local_size l
        ≡ (success, some (uint32 npeers), l1)
      → lib.get (record { nspace = nspace; rank = k.rank_wildcard }) k.local_peers l1
        ≡ (success, some (string text), l2)
      → all_whole (tokens b',' [] text) ≡ true
      → get_local_peers lib k nspace l
        ≡ (outcome npeers (length (tokens b',' [] text)) (ranks_of (tokens b',' [] text)), l2)
  unfolding get_local_peers
  get_local_peers-outcome nspace text npeers l l1 l2 size peers whole =
      rw (size, peers)
        (peers_loop-outcome npeers (tokens b',' [] text) [] 0 (length (tokens b',' [] text)) l2
          whole (omega arith) (ground arith))
