-- ===== src/Tests/Filters.antt =====
-- prrte/debug/tcfilter.c with a small `regexec`.
use pmix_tests.Base.{
  ℕ, ◌≡◌, ◌≤◌, refl, Option, none, some, List, [], ◌∷◌, ◌++◌, arith, length, replicate, get_elem?,
  if◌then◌else◌, ◌==◌, zero, suc,
}
use pmix_tests.Base.Text.{CString, codes, str_eq}
use pmix_tests.Options.Numbers.{print_int, digits}
use pmix_tests.Tcfilter.{
  Pattern, Match, Filter, ok, string, store, index_of, tag_of, replace_text, cut_newline,
  drop_sequence, filter_lines, empty_filter,
}
use pmix_tests.Tcfilter.Table.{IsTable, Grows}
use pmix_tests.Tcfilter.Tags.{replace_text-tag, tagged}
use pmix_tests.Tcfilter.Keeps.{Ensures, FromPair, filter_lines-Grows}
use pmix_tests.Tcfilter.Lines.{scanned, scanned-unended}

abbrev at : ℕ → ℕ → Match
at so eo = record { rm_so = so; rm_eo = eo }

abbrev line : Filter
line = record { input = codes "ns a1@2 b" ++ 0 ∷ []; namespaces = codes "c1@2" ∷ [] }

one_name-numbered :
    (i : ℕ) (t : CString)
    → get_elem? (codes "c1@2" ∷ []) i ≡ some t
    → index_of t (codes "c1@2" ∷ []) ≡ i
unfolding index_of str_eq
one_name-numbered zero t h = let e : codes "c1@2" ≡ t = cc in rw (← e) refl
one_name-numbered (suc i) t h = cc

one_name-IsTable : IsTable (codes "c1@2" ∷ [])
one_name-IsTable = (one_name-numbered, omega arith)

replace_text-tag_example :
    (s' : Filter) × (replace_text (at 3 7) (codes "NS") line ≡ ok s')
    × (string s'.input ≡ tagged (at 3 7) (tag_of (codes "NS") 1) (codes "ns a1@2 b"))
    × (get_elem? s'.namespaces 1 ≡ some (codes "a1@2"))
    × Grows line.namespaces s'.namespaces
unfolding string index_of str_eq tag_of print_int digits
replace_text-tag_example =
    replace_text-tag (at 3 7) (codes "NS") line (omega arith) one_name-IsTable (omega arith)
      (omega arith) (omega arith)

abbrev twenty : CString
twenty = codes "12345678901234567890"

scanned-unended_example :
    (scanned (twenty ++ (codes "0007" ++ codes "lines")) (replicate 9 1)
      ≡ twenty ++ (codes "lines" ++ codes "ines"))
    × (length (codes "ines") ≡ 4)
    × (4 ≤ 5 → codes "ines" ≡ codes "ines")
scanned-unended_example =
    scanned-unended twenty (codes "0007") (codes "lines") (replicate 9 1) refl refl (omega arith)
      (omega arith) (omega arith)

-- A line of 21 characters takes on what a longer line has left in the buffer.
stale :
    scanned (twenty ++ 49 ∷ 10 ∷ []) (replicate 24 1 ++ (codes "stale" ++ 0 ∷ []))
    ≡ twenty ++ codes "staletale"
unfolding string store cut_newline drop_sequence
stale = refl

-- A `regexec` that finds an `x` at the start of a text, as the number of a process.
abbrev starts_with_x : CString → Option (List Match)
starts_with_x [] = none
starts_with_x (c ∷ cs) = if c == 120 then some (at 0 1 ∷ at 0 1 ∷ []) else none

abbrev find_x : Pattern → CString → Option (List Match)
find_x Pattern.pid text = starts_with_x text
find_x _ text = none

filter_lines-Grows_example :
    Ensures (FromPair find_x []) (filter_lines find_x 9 9 (codes "x") empty_filter)
unfolding index_of
filter_lines-Grows_example =
    filter_lines-Grows find_x 9 9 (codes "x") [] empty_filter
      (([], refl), ((λ i t h. cc), omega arith))
