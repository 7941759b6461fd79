-- ===== src/Tcfilter/Tags.antt =====
-- One replacement in prrte/debug/tcfilter.c, and the texts in its buffers.
use pmix_tests.Base.{
  ℕ, zero, suc, ◌-◌, ◌≤◌, ◌<◌, ◌≡◌, refl, sym, ap, ◌∙◌, false, some, List, [], ◌∷◌, ◌++◌, arith,
  ◌==◌, length, get_elem?, take, drop, All, All-append, Bool-cases, inl, inr, lt→ltb,
}
use pmix_tests.Base.Int.{pos}
use pmix_tests.Base.Text.{CString}
use pmix_tests.Options.Numbers.{print_int}
use pmix_tests.Options.Replace.Indexes.{Digits, print-Digits}
use pmix_tests.Tcfilter.{
  ok, Filter, Match, index_of, match_text, put_tag, replace_text, string, store, tag_of,
}
use pmix_tests.Tcfilter.Table.{IsTable, Grows, enter-Grows, index_of-found}

abbrev pub NonZero : List ℕ → Type 0
NonZero = All (λ c. 0 < c)

pub string-NonZero : (buf : List ℕ) → NonZero (string buf)
unfolding string
string-NonZero [] = tt
string-NonZero (c ∷ cs) = elim (Bool-cases (c == 0)) [
  | inl e ↦ rw e tt
  | inr e ↦ rw e (ground arith, string-NonZero cs)
]

pub string-append : (s rest : List ℕ) → NonZero s → string (s ++ 0 ∷ rest) ≡ s
unfolding string
string-append [] rest h = refl
string-append (c ∷ cs) rest h =
    let e : (c == 0) ≡ false = ground arith in rw e (ap (λ l. c ∷ l) (string-append cs rest h.1))

pub string-store : (s buf : List ℕ) → NonZero s → string (store s buf) ≡ s
unfolding store
string-store s buf h = string-append s (drop (suc (length s)) buf) h

take-NonZero : (n : ℕ) (s : List ℕ) → NonZero s → NonZero (take n s)
take-NonZero zero s h = tt
take-NonZero (suc n) [] h = tt
take-NonZero (suc n) (c ∷ cs) h = (h.0, take-NonZero n cs h.1)

pub drop-NonZero : (n : ℕ) (s : List ℕ) → NonZero s → NonZero (drop n s)
drop-NonZero zero s h = h
drop-NonZero (suc n) [] h = tt
drop-NonZero (suc n) (c ∷ cs) h = drop-NonZero n cs h.1

Digits-NonZero : (s : List ℕ) → Digits s → NonZero s
Digits-NonZero [] h = tt
Digits-NonZero (c ∷ cs) h = (omega (arith, h.0.0), Digits-NonZero cs h.1)

tag_of-NonZero : (prefix : CString) (i : ℕ) → NonZero prefix → NonZero (tag_of prefix i)
unfolding tag_of
tag_of-NonZero prefix i h =
    let number = Digits-NonZero (print_int (pos i)) (print-Digits i).0 in
    let rest = All-append (λ c. 0 < c) (print_int (pos i)) (b'>' ∷ []) number (omega arith, tt) in
    (omega arith, All-append (λ c. 0 < c) prefix _ h (omega arith, rest))

-- The text that a match covers, and the text with a tag in its place.
abbrev pub covered : Match → CString → CString
covered m text = take (m.rm_eo - m.rm_so) (drop m.rm_so text)

abbrev pub tagged : Match → CString → CString → CString
tagged m tag text = take m.rm_so text ++ (tag ++ drop m.rm_eo text)

-- A match inside of the text that fits `match_text`.
abbrev pub IsInside : Match → CString → Type 0
IsInside m text = (m.rm_so ≤ m.rm_eo) × (m.rm_eo ≤ length text) × (m.rm_eo - m.rm_so < 512)

pub match_text-covered :
    (m : Match) (text : CString) → IsInside m text → match_text m text ≡ ok (covered m text)
unfolding match_text
match_text-covered m text h = ground arith

put_tag-tagged :
    (m : Match) (tag : CString) (s : Filter)
    → NonZero tag
    → length (tagged m tag (string s.input)) < 1024
    → (s' : Filter) × (put_tag m tag s ≡ ok s')
      × (string s'.input ≡ tagged m tag (string s.input))
      × (s'.namespaces ≡ s.namespaces)
unfolding put_tag
put_tag-tagged m tag s h room =
    let text = string s.input in
    let all = string-NonZero s.input in
    let out = tagged m tag text in
    let clean : NonZero out =
      All-append (λ c. 0 < c) (take m.rm_so text) (tag ++ drop m.rm_eo text)
        (take-NonZero m.rm_so text all)
        (All-append (λ c. 0 < c) tag (drop m.rm_eo text) h (drop-NonZero m.rm_eo text all)) in
    (
      record s { input = store out s.input },
      rw (lt→ltb (length out) 1024 room) refl,
      string-store out s.input clean,
      refl,
    )

-- For a match inside of the line, a table that is not full and a result that fits the buffer:
-- replace_text goes on, the line has the tag in place of the match and is the same around it, the
-- number in the tag is the one of the covered text in the table, and the table has only grown.
pub replace_text-tag :
    (m : Match) (prefix : CString) (s : Filter)
    → IsInside m (string s.input)
    → IsTable s.namespaces
    → length s.namespaces < 100
    → NonZero prefix
    → let name = covered m (string s.input) in
      let i = index_of name s.namespaces in
      length (tagged m (tag_of prefix i) (string s.input)) < 1024
      → (s' : Filter) × (replace_text m prefix s ≡ ok s')
        × (string s'.input ≡ tagged m (tag_of prefix i) (string s.input))
        × (get_elem? s'.namespaces i ≡ some name)
        × Grows s.namespaces s'.namespaces
unfolding replace_text
replace_text-tag m prefix s inside table space clean room =
    let name = covered m (string s.input) in
    let i = index_of name s.namespaces in
    let not_full : (100 == length s.namespaces) ≡ false = ground arith in
    let (names, entered, grows, same, below) = enter-Grows name s.namespaces table space in
    let (s', put, text, kept) =
      put_tag-tagged m (tag_of prefix i) (record s { namespaces = names })
        (tag_of-NonZero prefix i clean) room in
    let found : get_elem? names i ≡ some name =
      ap (get_elem? names) (sym same) ∙ index_of-found name names (rw same below) in
    (
      s',
      rw (not_full, match_text-covered m (string s.input) inside, entered) put,
      text,
      rw kept found,
      rw kept grows,
    )
