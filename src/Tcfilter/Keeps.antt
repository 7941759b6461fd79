-- ===== src/Tcfilter/Keeps.antt =====
-- The table of names through a line and through a run of prrte/debug/tcfilter.c.
use pmix_tests.Base.{
  ℕ, zero, suc, ◌≡◌, false, Option, none, some, List, [], ◌∷◌, arith, ◌==◌, length, get_elem?,
  Bool-cases, inl, inr, Option-cases,
}
use pmix_tests.Base.Text.{CString, codes}
use pmix_tests.Tcfilter.{
  Outcome, ok, exits, fault, out_of_fuel, ◌>>=◌, Filter, Match, Pattern, Edit, fixed_id, numbered,
  index_of, enter, match_text, put_tag, edit_at, replace_text, replace_with_fixed_id, apply_edit,
  apply_edits, scan_round, scan_more, scan, rules, first_match, string, filter_line, filter_lines,
  read_line, store, cut_newline, drop_sequence, tag_of,
}
use pmix_tests.Tcfilter.Table.{Grows, Extends-trans, enter-Grows}

-- What holds of the value, when the program goes on with one.
abbrev pub Ensures {ℓ κ} : {A : Type ℓ} → (A → Type κ) → Outcome A → Type κ
Ensures P (ok a) = P a
Ensures P (exits n) = Unit
Ensures P fault = Unit
Ensures P out_of_fuel = Unit

Ensures-bind :
    {A B : Type 0} (P : A → Type 0) (Q : B → Type 0) (m : Outcome A) (f : A → Outcome B)
    → Ensures P m
    → ((a : A) → P a → Ensures Q (f a))
    → Ensures Q (m >>= f)
Ensures-bind P Q (ok a) f h k = k a h
Ensures-bind P Q (exits n) f h k = tt
Ensures-bind P Q fault f h k = tt
Ensures-bind P Q out_of_fuel f h k = tt

Ensures-any : {A : Type 0} (m : Outcome A) → Ensures (λ _. Unit {0}) m
Ensures-any (ok a) = tt
Ensures-any (exits n) = tt
Ensures-any fault = tt
Ensures-any out_of_fuel = tt

-- The table of the state has grown from `names`.
abbrev pub From : List CString → Filter → Type 0
From names s = Grows names s.namespaces

put_tag-keeps :
    (m : Match) (tag : CString) (names : List CString) (s : Filter)
    → From names s
    → Ensures (From names) (put_tag m tag s)
unfolding put_tag
put_tag-keeps m tag names s h = ground arith

fixed_id-keeps :
    (m : Match) (tag : CString) (names : List CString) (s : Filter)
    → From names s
    → Ensures (From names) (replace_with_fixed_id m tag s)
unfolding replace_with_fixed_id
fixed_id-keeps m tag names s h =
    Ensures-bind (λ _. Unit) (From names) (match_text m (string s.input)) _ (Ensures-any _)
      λ text _. put_tag-keeps m tag names s h

Grows-trans : (a b c : List CString) → Grows a b → Grows b c → Grows a c
Grows-trans a b c (e, _) (f, t) = (Extends-trans a b c e f, t)

enter-keeps :
    (t : CString) (names table : List CString)
    → Grows names table
    → (100 == length table) ≡ false
    → Ensures (Grows names) (enter t (index_of t table) table)
enter-keeps t names table (e, (num, le)) h =
    let (table', eq, g, _, _) = enter-Grows t table (num, le) (ground arith) in
    rw eq (Grows-trans names table table' (e, (num, le)) g)

replace_text-keeps :
    (m : Match) (prefix : CString) (names : List CString) (s : Filter)
    → From names s
    → Ensures (From names) (replace_text m prefix s)
unfolding replace_text
replace_text-keeps m prefix names s h = elim (Bool-cases (100 == length s.namespaces)) [
  | inl e ↦ rw e tt
  | inr e ↦ rw e (
      Ensures-bind (λ _. Unit) (From names) (match_text m (string s.input)) _ (Ensures-any _)
        λ text _.
          Ensures-bind (Grows names) (From names)
            (enter text (index_of text s.namespaces) s.namespaces) _
            (enter-keeps text names s.namespaces h e)
            λ table g.
              put_tag-keeps m (tag_of prefix (index_of text s.namespaces)) names
                (record s { namespaces = table }) g)
]

apply_edit-keeps :
    (matches : List Match) (e : Edit) (names : List CString) (s : Filter)
    → From names s
    → Ensures (From names) (apply_edit matches e s)
unfolding apply_edit edit_at
apply_edit-keeps matches (fixed_id i tag) names s h = elim (Option-cases (get_elem? matches i)) [
  | inl none_there ↦ rw none_there tt
  | inr (m, there) ↦ rw there (fixed_id-keeps m tag names s h)
]
apply_edit-keeps matches (numbered i) names s h = elim (Option-cases (get_elem? matches i)) [
  | inl none_there ↦ rw none_there tt
  | inr (m, there) ↦ rw there (replace_text-keeps m (codes "NS") names s h)
]

apply_edits-keeps :
    (matches : List Match) (es : List Edit) (names : List CString) (s : Filter)
    → From names s
    → Ensures (From names) (apply_edits matches es s)
unfolding apply_edits
apply_edits-keeps matches [] names s h = h
apply_edits-keeps matches (e ∷ es) names s h =
    Ensures-bind (From names) (From names) (apply_edit matches e s) _
      (apply_edit-keeps matches e names s h) λ s' g. apply_edits-keeps matches es names s' g

module _ (regexec : Pattern → CString → Option (List Match)) where
  abbrev FromNext : List CString → Option Filter → Type 0
  FromNext names none = Unit
  FromNext names (some s) = From names s

  scan_round-keeps :
      (found : Option (List Match × List Edit)) (names : List CString) (s : Filter)
      → From names s
      → Ensures (FromNext names) (scan_round regexec found s)
  unfolding scan_round
  scan_round-keeps none names s h = tt
  scan_round-keeps (some (matches, es)) names s h =
      Ensures-bind (From names) (FromNext names) (apply_edits matches es s) _
        (apply_edits-keeps matches es names s h) λ s' g. g

  scan_more-keeps :
      (again : Filter → Outcome Filter) (names : List CString) (s : Filter) (step : Option Filter)
      → ((s' : Filter) → From names s' → Ensures (From names) (again s'))
      → From names s
      → FromNext names step
      → Ensures (From names) (scan_more regexec again s step)
  unfolding scan_more
  scan_more-keeps again names s none keeps h g = h
  scan_more-keeps again names s (some s') keeps h g = keeps s' g

  scan-keeps :
      (fuel : ℕ) (names : List CString) (s : Filter)
      → From names s
      → Ensures (From names) (scan regexec fuel s)
  unfolding scan
  scan-keeps zero names s h = tt
  scan-keeps (suc fuel) names s h =
      let found = first_match regexec rules (string s.input) in
      Ensures-bind (FromNext names) (From names) (scan_round regexec found s) _
        (scan_round-keeps found names s h)
        λ step g. scan_more-keeps (scan regexec fuel) names s step (scan-keeps fuel names) h g

  abbrev pub FromPair : {A : Type 0} → List CString → A × Filter → Type 0
  FromPair names out = From names out.1

  filter_line-keeps :
      (fuel : ℕ) (line : CString) (names : List CString) (s : Filter)
      → From names s
      → Ensures (FromPair names) (filter_line regexec fuel line s)
  unfolding filter_line
  filter_line-keeps fuel line names s h =
      let read = record s { input = cut_newline (drop_sequence (store line s.input)) } in
      Ensures-bind (From names) (FromPair names) (scan regexec fuel read) _
        (scan-keeps fuel names read h) λ s' g. g

  -- From any table in which each name is found at its own number, and which has 100 names at most:
  -- when the filter ends over its input, the names have kept their numbers, new names have come
  -- behind them only, each name is found at its own number, so it has one number from its first line
  -- on, and there are 100 names at most.
  pub filter_lines-Grows :
      (fuel rounds : ℕ) (stdin : CString) (names : List CString) (s : Filter)
      → From names s
      → Ensures (FromPair names) (filter_lines regexec fuel rounds stdin s)
  unfolding filter_lines
  filter_lines-Grows zero rounds stdin names s h = tt
  filter_lines-Grows (suc fuel) rounds [] names s h = h
  filter_lines-Grows (suc fuel) rounds (c ∷ cs) names s h =
      let (line, rest) = read_line 1022 (c ∷ cs) in
      Ensures-bind (FromPair names) (FromPair names) (filter_line regexec rounds line s) _
        (filter_line-keeps rounds line names s h)
        λ (out, s') g.
          Ensures-bind (FromPair names) (FromPair names) (filter_lines regexec fuel rounds rest s')
            _ (filter_lines-Grows fuel rounds rest names s' g) λ more k. k
