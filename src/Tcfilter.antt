-- ===== src/Tcfilter.antt =====
-- prrte/debug/tcfilter.c, which puts tags in place of the names and the numbers that vary from run to
-- run in the output of a test. `regcomp` and `regexec` are parameters: the regular expressions of
-- the source are the constructors of `Pattern`.
pub mod Tags
pub mod Table
pub mod Keeps
pub mod Lines
use pmix_tests.Base.{
  ℕ, zero, suc, ◌+◌, ◌-◌, ◌≡◌, Bool, true, false, ◌&&◌, ◌||◌, not, Option, none, some, List, [],
  ◌∷◌, ◌++◌, ltb, leb, ◌==◌, length, get_elem?, set, take, drop, replicate, if◌then◌else◌,
}
use pmix_tests.Base.Int.{ℤ, pos}
use pmix_tests.Base.Text.{CString, codes, str_eq}
use pmix_tests.Options.Numbers.{print_int}

pub data Pattern : Type 0 where
  pid : Pattern
  namespace : Pattern
  namespace2 : Pattern
  nspace_pid : Pattern
  nspace_rank_pid : Pattern
  host : Pattern
  host_pid_ns : Pattern
  host_pid_ns_rank_pid : Pattern
  unconnected_tool_ns : Pattern
  uri : Pattern
  release_ns : Pattern
  tcp4_connect : Pattern
  indirect_ns : Pattern

-- `regmatch_t`
pub record Match : Type 0 where
  pub rm_so : ℕ
  pub rm_eo : ℕ

-- The program ends by `exit`, runs into undefined behaviour, or goes on.
pub data Outcome {ℓ} (A : Type ℓ) : Type ℓ where
  ok : A → Outcome A
  exits : ℕ → Outcome A
  fault : Outcome A
  out_of_fuel : Outcome A

infixl 5 ◌>>=◌
abbrev pub ◌>>=◌ {ℓ κ} : {A : Type ℓ} {B : Type κ} → Outcome A → (A → Outcome B) → Outcome B
ok a >>= f = f a
exits n >>= f = exits n
fault >>= f = fault
out_of_fuel >>= f = out_of_fuel

-- `input`, an array of 1024 bytes, and `namespace_array` up to `num_namespaces`.
pub record Filter : Type 0 where
  pub input : List ℕ
  pub namespaces : List CString

-- The string at the start of a buffer.
unfoldable pub string : List ℕ → CString
string [] = []
string (c ∷ cs) = let rest = string cs in if c == 0 then [] else c ∷ rest

-- `strcpy` to the start of a buffer.
unfoldable pub store : CString → List ℕ → List ℕ
store s buf = s ++ 0 ∷ drop (suc (length s)) buf

-- `match_text`: the offsets lie in the text, and the array has 512 bytes.
unfoldable pub match_text : Match → CString → Outcome CString
match_text m text =
    if leb m.rm_so m.rm_eo && leb m.rm_eo (length text) && ltb (m.rm_eo - m.rm_so) 512
    then ok (take (m.rm_eo - m.rm_so) (drop m.rm_so text))
    else fault

-- `output` with `tag` in place of the match, and its copy to `input`; both have 1024 bytes.
unfoldable pub put_tag : Match → CString → Filter → Outcome Filter
put_tag m tag s =
    let text = string s.input in
    let output = take m.rm_so text ++ (tag ++ drop m.rm_eo text) in
    if ltb (length output) 1024 then ok (record s { input = store output s.input }) else fault

-- The search in `unique_strings`; the number of its elements if nothing is found.
unfoldable pub index_of : CString → List CString → ℕ
index_of text [] = 0
index_of text (s ∷ ss) = let rest = suc (index_of text ss) in if str_eq text s then 0 else rest

unfoldable pub replace_with_fixed_id : Match → CString → Filter → Outcome Filter
replace_with_fixed_id m replacement_text s = do
  text ← match_text m (string s.input)
  put_tag m replacement_text s

-- `sprintf(replace_text, "@%s<%d>", prefix, i)`
unfoldable pub tag_of : CString → ℕ → CString
tag_of prefix i = b'@' ∷ prefix ++ (b'<' ∷ print_int (pos i) ++ (b'>' ∷ []))

-- The entry for `text` at index `i`, which is made if the search has found none.
unfoldable pub enter : CString → ℕ → List CString → Outcome (List CString)
enter text i names =
    if not (leb (length names) i)
    then ok names
    else if leb 100 i
    then exits 1
    else ok (names ++ text ∷ [])

unfoldable pub replace_text : Match → CString → Filter → Outcome Filter
replace_text m prefix s = if 100 == length s.namespaces then exits 1 else do
  text ← match_text m (string s.input)
  names ← enter text (index_of text s.namespaces) s.namespaces
  put_tag m (tag_of prefix (index_of text s.namespaces)) (record s { namespaces = names })

-- One call of `replace_with_fixed_id` or `replace_text` for group `i` of a match.
pub data Edit : Type 0 where
  fixed_id : ℕ → CString → Edit
  numbered : ℕ → Edit

pub record Rule : Type 0 where
  pub pattern : Pattern
  pub edits : List Edit

abbrev pid_id : CString
pid_id = codes "PID<?>"

abbrev host_id : CString
host_id = codes "<host>"

-- The tests of the scan loop, in their order.
abbrev pub rules : List Rule
rules =
    record { pattern = pid; edits = fixed_id 1 pid_id ∷ [] }
    ∷ record { pattern = nspace_rank_pid; edits = fixed_id 2 pid_id ∷ numbered 1 ∷ [] }
    ∷ record { pattern = nspace_pid; edits = fixed_id 2 pid_id ∷ numbered 1 ∷ [] }
    ∷ record { pattern = namespace; edits = numbered 1 ∷ [] }
    ∷ record { pattern = namespace2; edits = numbered 1 ∷ [] }
    ∷ record { pattern = host; edits = fixed_id 1 host_id ∷ [] }
    ∷ record {
      pattern = host_pid_ns_rank_pid;
      edits = fixed_id 4 pid_id ∷ numbered 3 ∷ fixed_id 2 pid_id ∷ fixed_id 1 host_id ∷ [];
    }
    ∷ record {
      pattern = host_pid_ns;
      edits = numbered 3 ∷ fixed_id 2 pid_id ∷ fixed_id 1 host_id ∷ [];
    }
    ∷ record { pattern = unconnected_tool_ns; edits = numbered 1 ∷ [] }
    ∷ record { pattern = uri; edits = numbered 1 ∷ [] }
    ∷ record { pattern = release_ns; edits = numbered 1 ∷ [] }
    ∷ record { pattern = tcp4_connect; edits = fixed_id 1 host_id ∷ [] }
    ∷ record { pattern = indirect_ns; edits = numbered 1 ∷ [] }
    ∷ []

unfoldable pub edit_at : Option Match → (Match → Outcome Filter) → Outcome Filter
edit_at none f = fault
edit_at (some m) f = f m

unfoldable pub apply_edit : List Match → Edit → Filter → Outcome Filter
apply_edit matches (fixed_id i tag) s =
    edit_at (get_elem? matches i) (λ m. replace_with_fixed_id m tag s)
apply_edit matches (numbered i) s =
    edit_at (get_elem? matches i) (λ m. replace_text m (codes "NS") s)

unfoldable pub apply_edits : List Match → List Edit → Filter → Outcome Filter
apply_edits matches [] s = ok s
apply_edits matches (e ∷ es) s = do s' ← apply_edit matches e s; apply_edits matches es s'

-- `strchr(input, '\n')` and the end of the string that is put there.
unfoldable pub cut_newline : List ℕ → List ℕ
cut_newline [] = []
cut_newline (c ∷ cs) =
    let rest = cut_newline cs in if c == 0 then c ∷ cs else if c == 10 then 0 ∷ cs else c ∷ rest

-- `memmove(&input[20], &input[24], strlen(&input[24]))`
unfoldable pub drop_sequence : List ℕ → List ℕ
drop_sequence buf =
    let moved = string (drop 24 buf) in take 20 buf ++ (moved ++ drop (20 + length moved) buf)

-- `fgets` for `n` bytes at most: the line, with its newline, and what is left.
unfoldable pub read_line : ℕ → CString → CString × CString
read_line zero stdin = ([], stdin)
read_line (suc n) [] = ([], [])
read_line (suc n) (c ∷ cs) =
    let (line, rest) = read_line n cs in if c == 10 then (c ∷ [], cs) else (c ∷ line, rest)

abbrev pub or_next :
    List Edit
    → Option (List Match × List Edit)
    → Option (List Match)
    → Option (List Match × List Edit)
or_next edits next none = next
or_next edits next (some matches) = some (matches, edits)

module _ (regexec : Pattern → CString → Option (List Match)) where
  -- The first test of the loop that finds something, with its matches.
  unfoldable pub first_match : List Rule → CString → Option (List Match × List Edit)
  first_match [] text = none
  first_match (r ∷ rs) text = or_next r.edits (first_match rs text) (regexec r.pattern text)

  -- One round: `none` when no test finds anything.
  unfoldable pub scan_round : Option (List Match × List Edit) → Filter → Outcome (Option Filter)
  scan_round none s = ok none
  scan_round (some (matches, edits)) s = do s' ← apply_edits matches edits s; ok (some s')

  unfoldable pub scan_more : (Filter → Outcome Filter) → Filter → Option Filter → Outcome Filter
  scan_more again s none = ok s
  scan_more again s (some s') = again s'

  -- `while (1 == rescan)`, on fuel.
  unfoldable pub scan : ℕ → Filter → Outcome Filter
  scan zero s = out_of_fuel
  scan (suc fuel) s = do
    step ← scan_round (first_match rules (string s.input)) s
    scan_more (scan fuel) s step

  -- A line: what is printed, and the state.
  unfoldable pub filter_line : ℕ → CString → Filter → Outcome (CString × Filter)
  filter_line fuel line s = do
    s' ← scan fuel (record s { input = cut_newline (drop_sequence (store line s.input)) })
    ok (string s'.input, s')

  -- The loop over the lines of `stdin`, on fuel; each line that is read has a byte.
  unfoldable pub filter_lines : ℕ → ℕ → CString → Filter → Outcome (List CString × Filter)
  filter_lines zero rounds stdin s = out_of_fuel
  filter_lines (suc fuel) rounds [] s = ok ([], s)
  filter_lines (suc fuel) rounds (c ∷ cs) s =
      let (line, rest) = read_line 1022 (c ∷ cs) in
      do
        (out, s') ← filter_line rounds line s
        (outs, s'') ← filter_lines fuel rounds rest s'
        ok (out ∷ outs, s'')

-- The calls of `regcomp` in their order: the first that fails ends the program.
abbrev compiled : List Pattern
compiled =
    pid ∷ namespace ∷ namespace2 ∷ nspace_rank_pid ∷ nspace_pid ∷ host ∷ host_pid_ns
    ∷ host_pid_ns_rank_pid ∷ unconnected_tool_ns ∷ uri ∷ release_ns ∷ tcp4_connect ∷ indirect_ns
    ∷ []

unfoldable pub compile_all : (Pattern → ℕ) → List Pattern → Outcome (Unit {0})
compile_all regcomp [] = ok tt
compile_all regcomp (p ∷ ps) =
    let rest = compile_all regcomp ps in if regcomp p == 0 then rest else exits 1

abbrev pub empty_filter : Filter
empty_filter = record { input = replicate 1024 0; namespaces = [] }

unfoldable pub tcfilter_main :
    (Pattern → ℕ)
    → (Pattern → CString → Option (List Match))
    → ℕ
    → ℕ
    → CString
    → Outcome (List CString × Filter)
tcfilter_main regcomp regexec fuel rounds stdin = do
  _ ← compile_all regcomp compiled
  filter_lines regexec fuel rounds stdin empty_filter
