-- ===== src/Options/Ranges.antt =====
-- The operands of the options `--fence` and `--noise`, in unit/test_common.c: `parse_token`,
-- `parse_fence` and `parse_noise`. Each is called with
-- `store` unset to check the text and with `store` set to keep what it says. The lists that are
-- kept are results here, and `none` is the result 1 of `parse_token`. A name of a namespace is
-- shorter than PMIX_MAX_NSLEN.
use pmix_tests.Base.{
  ℕ, zero, suc, ◌+◌, ◌-◌, Bool, true, false, not, ◌&&◌, ◌||◌, Option, none, some, List, [], ◌∷◌,
  ◌++◌, map, ◌==◌, if◌then◌else◌,
}
use pmix_tests.Base.Int.{ℤ, pos, negsuc, eqb}
use pmix_tests.Base.Text.{CString, codes}
use pmix_tests.Options.Numbers.{strtol, to_int, print_int}

-- The chain of calls that each return 1 where the one before them did.
infixl 5 ◌>>=◌
abbrev ◌>>=◌ : {V W : Type 0} → Option V → (V → Option W) → Option W
none >>= next = none
some v >>= next = next v

-- `PMIX_RANK_WILDCARD`, or a rank.
pub data Who : Type 0 where
  wildcard : Who
  rank : ℤ → Who

-- `participant_t`
pub record Participant : Type 0 where
  pub nspace : CString
  pub who : Who

-- `fence_desc_t`
pub record FenceDesc : Type 0 where
  pub blocking : Bool
  pub data_exchange : Bool
  pub participants : List Participant

abbrev pub suc_int : ℤ → ℤ
suc_int (pos n) = pos (suc n)
suc_int (negsuc zero) = pos 0
suc_int (negsuc (suc n)) = negsuc n

-- `b - a` where this is above zero.
abbrev pub distance : ℤ → ℤ → ℕ
distance (pos a) (pos b) = b - a
distance (pos a) (negsuc b) = 0
distance (negsuc a) (pos b) = suc (a + b)
distance (negsuc a) (negsuc b) = a - b

abbrev ints_from : ℕ → ℤ → List ℤ
ints_from zero i = []
ints_from (suc n) i = i ∷ ints_from n (suc_int i)

-- `CHECK_STRTOL_VAL`: does it return 1?
unfoldable pub bad_value : Bool → ℤ → CString → Bool
bad_value store val [] = not store && eqb val (pos 0)
bad_value store val (c ∷ cs) = not store && (eqb val (pos 0) && not (c == 48))

unfoldable pub skip_spaces : CString → CString
skip_spaces [] = []
skip_spaces (c ∷ cs) = let rest = skip_spaces cs in if c == 32 then rest else c ∷ cs

abbrev cons_before : ℕ → Option (CString × CString) → Option (CString × CString)
cons_before x none = none
cons_before x (some (before, after)) = some (x ∷ before, after)

-- `strchr`: what stands before and after the first `c`.
unfoldable pub split_at : ℕ → CString → Option (CString × CString)
split_at c [] = none
split_at c (x ∷ xs) =
    let rest = cons_before x (split_at c xs) in if x == c then some ([], xs) else rest

abbrev push : CString → List CString → List CString
push [] fields = fields
push (c ∷ cs) fields = (c ∷ cs) ∷ fields

-- The tokens of `strtok`; `acc` is the start of the first of them.
unfoldable pub tokens : ℕ → CString → CString → List CString
tokens sep acc [] = push acc []
tokens sep acc (c ∷ cs) =
    let cut = tokens sep [] cs in
    let grow = tokens sep (acc ++ c ∷ []) cs in if c == sep then push acc cut else grow

-- The loop of step 3: the characters of the current token (there are `count`), `remember`, and the
-- ranks that were found.
pub record Scan : Type 0 where
  pub token : CString
  pub remember : ℤ
  pub found : List ℤ

no_range : ℤ
no_range = negsuc 0

-- The ranks of a token that ends: those of an open range, then its own.
end_token : Bool → Scan → Option (List ℤ)
unfolding no_range
end_token store s =
    let val = to_int (strtol s.token) in
    if bad_value store val s.token
    then none
    else if not store
    then some s.found
    else if eqb s.remember no_range
    then some (s.found ++ val ∷ [])
    else some (s.found ++ ints_from (distance s.remember val) s.remember ++ val ∷ [])

abbrev is_empty : CString → Bool
is_empty [] = true
is_empty (c ∷ cs) = false

unfoldable pub ranks_loop : Bool → CString → Scan → Option (List ℤ)
unfolding no_range end_token
ranks_loop store [] s = if is_empty s.token then some s.found else end_token store s
ranks_loop store (c ∷ cs) s =
    let after_comma = (do
      found ← end_token store s
      ranks_loop store cs (record { token = []; remember = no_range; found = found })) in
    let val = to_int (strtol s.token) in
    let after_dash = ranks_loop store cs (record { token = []; remember = val; found = s.found }) in
    let longer = ranks_loop store cs (record s { token = s.token ++ c ∷ [] }) in
    if (c == 44) && not (is_empty s.token)
    then after_comma
    else if (c == 45) && not (is_empty s.token)
    then (if bad_value store val s.token then none else after_dash)
    else longer

abbrev named : ℤ → Who → Participant
named ns_id who = record { nspace = codes "smoky_nspace-" ++ print_int ns_id; who = who }

-- Step 3: the ranks of namespace `ns_id`.
unfoldable pub token_ranks : Bool → ℤ → CString → Option (List Participant)
unfolding no_range
token_ranks store ns_id str = elim (skip_spaces str) [
  | [] ↦ some (if store then named ns_id wildcard ∷ [] else [])
  | c ∷ cs ↦ (do
    found ← ranks_loop store (c ∷ cs) (record { token = []; remember = no_range; found = [] })
    some (map (λ i. named ns_id (rank i)) found))
]

-- Step 2: one namespace with its ranks.
unfoldable pub token_nspace : Bool → CString → Option (List Participant)
token_nspace store str = elim (split_at 58 str) [
  | none ↦ if store then some [] else none
  | some (before, after) ↦
      let ns_id = to_int (strtol (skip_spaces before)) in
      if bad_value store ns_id (skip_spaces before) then none else token_ranks store ns_id after
]

-- Step 1: the namespaces.
unfoldable pub token_nspaces : Bool → List CString → Option (List Participant)
token_nspaces store [] = some []
token_nspaces store (t ∷ ts) = do
  here ← token_nspace store t
  later ← token_nspaces store ts
  some (here ++ later)

abbrev pub nspaces_of : Bool → CString → Option (List Participant)
nspaces_of store str = token_nspaces store (tokens 59 [] str)

-- The characters before the bar of step 0.
unfoldable pub fence_flags : Bool → CString → FenceDesc → Option FenceDesc
fence_flags store [] d = some d
fence_flags store (c ∷ cs) d =
    let rest = fence_flags store cs in
    if c == 100
    then rest (if store then record d { data_exchange = true } else d)
    else if c == 98
    then rest (if store then record d { blocking = true } else d)
    else if (c == 32) || store
    then rest d
    else none

abbrev or_all : CString → Option (CString × CString) → CString × CString
or_all str none = ([], str)
or_all str (some parts) = parts

-- Step 0: one fence.
unfoldable pub token_fence : Bool → CString → Option FenceDesc
token_fence store str =
    let (before, after) = or_all str (split_at 124 str) in
    do
      d ←
          fence_flags store before
            (record { blocking = false; data_exchange = false; participants = [] })
      ps ← nspaces_of store after
      some (record d { participants = ps })

-- What one call of `parse_token` adds to `ret` and to the list.
abbrev keep_fence : Bool → Option FenceDesc → ℕ → List FenceDesc → ℕ × List FenceDesc
keep_fence store none ret fences = (ret + 1, fences)
keep_fence store (some d) ret fences = (ret, if store then fences ++ d ∷ [] else fences)

-- `parse_fence`: the result `ret`, and the fences kept. `text` is what follows a bracket that is
-- not yet closed.
unfoldable pub fence_loop :
    Bool → Option CString → CString → ℕ → List FenceDesc → ℕ × List FenceDesc
fence_loop store none [] ret fences = (ret, fences)
fence_loop store (some text) [] ret fences = (1, fences)
fence_loop store none (c ∷ cs) ret fences =
    let inside = fence_loop store (some []) cs ret fences in
    let outside = fence_loop store none cs ret fences in if c == 91 then inside else outside
fence_loop store (some text) (c ∷ cs) ret fences =
    let (ret1, fences1) = keep_fence store (token_fence store text) ret fences in
    let closed = fence_loop store none cs ret1 fences1 in
    let inside = fence_loop store (some (text ++ c ∷ [])) cs ret fences in
    if c == 93 then closed else inside

unfoldable pub parse_fence : CString → Bool → ℕ × List FenceDesc
parse_fence fence_param store = fence_loop store none fence_param 0 []

-- `parse_noise`: `none` is the result 1; a text with no bracket is let through, and keeps nothing.
unfoldable pub parse_noise : CString → Bool → Option (List Participant)
parse_noise noise_param store = elim (split_at 91 noise_param) [
  | none ↦ some []
  | some (_, after) ↦ elim (split_at 93 after) [
    | none ↦ none
    | some (inside, rest) ↦ if is_empty rest then nspaces_of store inside else none
  ]
]
