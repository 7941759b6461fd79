-- ===== src/Tcfilter/Lines.antt =====
-- How prrte/debug/tcfilter.c takes the sequence number out of a line, and the end of a line.
use mathlib.Core.List.{append_assoc, append-nil}
use pmix_tests.Base.{
  ℕ, zero, suc, ◌+◌, ◌-◌, ◌≤◌, ◌<◌, ◌≡◌, ◌≢◌, refl, sym, ap, ◌∙◌, List, [], ◌∷◌, ◌++◌, arith,
  length, length-append, take, drop, drop-append, All, All-append,
}
use pmix_tests.Base.Text.{CString}
use pmix_tests.Tcfilter.{string, store, cut_newline, drop_sequence}
use pmix_tests.Tcfilter.Tags.{NonZero, string-append}

drop-eq : (n : ℕ) (xs ys : List ℕ) → length xs ≡ n → drop n (xs ++ ys) ≡ ys
drop-eq n xs ys e = rw (← e) (drop-append xs ys)

drop-within : (n : ℕ) (xs ys : List ℕ) → n ≤ length xs → drop n (xs ++ ys) ≡ drop n xs ++ ys
drop-within zero xs ys h = refl
drop-within (suc n) [] ys h = absurd (omega arith)
drop-within (suc n) (x ∷ xs) ys h = drop-within n xs ys (omega arith)

drop-more : (n k m : ℕ) (xs ys : List ℕ) → length xs ≡ k → n ≡ k + m → drop n (xs ++ ys) ≡ drop m ys
drop-more n k m [] ys e f = ap (λ (j : ℕ). drop j ys) (omega arith)
drop-more zero k m (x ∷ xs) ys e f = absurd (omega arith)
drop-more (suc n) zero m (x ∷ xs) ys e f = absurd (omega arith)
drop-more (suc n) (suc k) m (x ∷ xs) ys e f = drop-more n k m xs ys (omega arith) (omega arith)

take-more :
    (n : ℕ) (xs ys : List ℕ) → length xs ≤ n → take n (xs ++ ys) ≡ xs ++ take (n - length xs) ys
take-more n [] ys h = ap (λ (j : ℕ). take j ys) (omega arith)
take-more zero (x ∷ xs) ys h = absurd (omega arith)
take-more (suc n) (x ∷ xs) ys h =
    ap (λ l. x ∷ l)
      (take-more n xs ys (omega arith) ∙ ap (λ (j : ℕ). xs ++ take j ys) (omega arith))

take-eq : (n : ℕ) (xs ys : List ℕ) → length xs ≡ n → take n (xs ++ ys) ≡ xs
take-eq n xs ys e =
    let none_left : n - length xs ≡ 0 = omega arith in
    take-more n xs ys (omega arith) ∙ ap (λ (j : ℕ). xs ++ take j ys) none_left ∙ append-nil xs

-- A text without its newline.
abbrev pub IsPlain : List ℕ → Type 0
IsPlain = All (λ c. (0 < c) × (c ≢ 10))

plain-NonZero : (s : List ℕ) → IsPlain s → NonZero s
plain-NonZero [] h = tt
plain-NonZero (c ∷ cs) h = (h.0.0, plain-NonZero cs h.1)

drop-IsPlain : (n : ℕ) (s : List ℕ) → IsPlain s → IsPlain (drop n s)
drop-IsPlain zero s h = h
drop-IsPlain (suc n) [] h = tt
drop-IsPlain (suc n) (c ∷ cs) h = drop-IsPlain n cs h.1

length-drop : (n : ℕ) (s : List ℕ) → length (drop n s) ≡ length s - n
length-drop zero s = omega arith
length-drop (suc n) [] = omega arith
length-drop (suc n) (c ∷ cs) = omega (arith, length-drop n cs)

cut_newline-zero : (s rest : List ℕ) → IsPlain s → string (cut_newline (s ++ 0 ∷ rest)) ≡ s
unfolding cut_newline string
cut_newline-zero [] rest h = refl
cut_newline-zero (c ∷ cs) rest h = ground (arith, h.0, cut_newline-zero cs rest h.1)

cut_newline-newline : (s rest : List ℕ) → IsPlain s → string (cut_newline (s ++ 10 ∷ rest)) ≡ s
unfolding cut_newline string
cut_newline-newline [] rest h = refl
cut_newline-newline (c ∷ cs) rest h = ground (arith, h.0, cut_newline-newline cs rest h.1)

-- What is left in the buffer of a line `a ++ b ++ r` with the sequence number `b`.
drop_sequence-store :
    (a b r buf : List ℕ)
    → length a ≡ 20
    → length b ≡ 4
    → NonZero r
    → (rest : List ℕ) × (drop_sequence (store (a ++ (b ++ r)) buf)
        ≡ a ++ (r ++ (drop (length r) (b ++ r) ++ 0 ∷ rest)))
unfolding drop_sequence store
drop_sequence-store a b r buf ea eb h =
    let rest = drop (suc (length (a ++ (b ++ r)))) buf in
    let end = r ++ 0 ∷ rest in
    let whole : (a ++ (b ++ r)) ++ 0 ∷ rest ≡ a ++ (b ++ end) =
      append_assoc a (b ++ r) (0 ∷ rest) ∙ ap (λ l. a ++ l) (append_assoc b r (0 ∷ rest)) in
    let tail : drop 24 (a ++ (b ++ end)) ≡ end =
      drop-more 24 20 4 a (b ++ end) ea refl ∙ drop-eq 4 b end eb in
    let front : take 20 (a ++ (b ++ end)) ≡ a = take-eq 20 a (b ++ end) ea in
    let back : drop (20 + length r) (a ++ (b ++ end)) ≡ drop (length r) (b ++ r) ++ 0 ∷ rest =
      drop-more (20 + length r) 20 (length r) a (b ++ end) ea refl
      ∙ ap (drop (length r)) (sym (append_assoc b r (0 ∷ rest)))
      ∙ drop-within (length r) (b ++ r) (0 ∷ rest) (omega (arith, length-append b r)) in
    (rest, rw (whole, tail, string-append r rest h, front, back) refl)

-- The text that is scanned for a line that `fgets` has read.
abbrev pub scanned : CString → List ℕ → CString
scanned line buf = string (cut_newline (drop_sequence (store line buf)))

-- A line of 24 characters or more, with its newline, loses its characters 20 to 23, and nothing
-- else, whatever the buffer held before.
pub scanned-newline :
    (a b r buf : List ℕ)
    → length a ≡ 20
    → length b ≡ 4
    → IsPlain a
    → IsPlain r
    → scanned (a ++ (b ++ (r ++ 10 ∷ []))) buf ≡ a ++ r
scanned-newline a b r buf ea eb ha hr =
    let line = r ++ 10 ∷ [] in
    let clean = All-append (λ c. 0 < c) r (10 ∷ []) (plain-NonZero r hr) (omega arith, tt) in
    let (rest, e) = drop_sequence-store a b line buf ea eb clean in
    let back = drop (length line) (b ++ line) ++ 0 ∷ rest in
    let split : a ++ (line ++ back) ≡ (a ++ r) ++ 10 ∷ back =
      ap (λ l. a ++ l) (append_assoc r (10 ∷ []) back) ∙ sym (append_assoc a r (10 ∷ back)) in
    rw (e, split)
      (cut_newline-newline (a ++ r) back (All-append (λ c. (0 < c) × (c ≢ 10)) a r ha hr))

-- A line of 24 characters or more that ends without a newline, as the last line of a file can and
-- the first 1022 characters of a longer line do, loses its characters 20 to 23 too, but the last four
-- characters that it had come behind the rest. Those of a line of 28 characters or more are the last
-- four of the rest, which has them twice in the end.
pub scanned-unended :
    (a b r buf : List ℕ)
    → length a ≡ 20
    → length b ≡ 4
    → IsPlain a
    → IsPlain b
    → IsPlain r
    → (scanned (a ++ (b ++ r)) buf ≡ a ++ (r ++ drop (length r) (b ++ r)))
      × (length (drop (length r) (b ++ r)) ≡ 4)
      × (4 ≤ length r → drop (length r) (b ++ r) ≡ drop (length r - 4) r)
scanned-unended a b r buf ea eb ha hb hr =
    let (rest, e) = drop_sequence-store a b r buf ea eb (plain-NonZero r hr) in
    let last = drop (length r) (b ++ r) in
    let split : a ++ (r ++ (last ++ 0 ∷ rest)) ≡ (a ++ (r ++ last)) ++ 0 ∷ rest =
      ap (λ l. a ++ l) (sym (append_assoc r last (0 ∷ rest)))
      ∙ sym (append_assoc a (r ++ last) (0 ∷ rest)) in
    let P = λ (c : ℕ). (0 < c) × (c ≢ 10) in
    let hl = drop-IsPlain (length r) (b ++ r) (All-append P b r hb hr) in
    let all = All-append P a (r ++ last) ha (All-append P r last hr hl) in
    (
      rw (e, split) (cut_newline-zero (a ++ (r ++ last)) rest all),
      omega (arith, length-drop (length r) (b ++ r), length-append b r),
      λ long. drop-more (length r) 4 (length r - 4) b r eb (omega arith),
    )

-- A line of 18 characters at most, with its newline, stays as it is, whatever the buffer held
-- before.
pub scanned-short : (s buf : List ℕ) → length s < 19 → IsPlain s → scanned (s ++ 10 ∷ []) buf ≡ s
unfolding drop_sequence store
scanned-short s buf le h =
    let rest = 0 ∷ drop (suc (length (s ++ 10 ∷ []))) buf in
    let line : (s ++ 10 ∷ []) ++ rest ≡ s ++ 10 ∷ rest = append_assoc s (10 ∷ []) rest in
    let whole = s ++ 10 ∷ rest in
    let moved = string (drop 24 whole) in
    let back = moved ++ drop (20 + length moved) whole in
    let count : 20 - length s ≡ suc (19 - length s) = omega arith in
    let front : take 20 whole ≡ s ++ 10 ∷ take (19 - length s) rest =
      take-more 20 s (10 ∷ rest) (omega arith) ∙ ap (λ (j : ℕ). s ++ take j (10 ∷ rest)) count in
    let split : (s ++ 10 ∷ take (19 - length s) rest) ++ back
        ≡ s ++ 10 ∷ (take (19 - length s) rest ++ back) =
      append_assoc s (10 ∷ take (19 - length s) rest) back in
    rw line (
      ap (λ l. string (cut_newline (l ++ back))) front
      ∙ ap (λ l. string (cut_newline l)) split
      ∙ cut_newline-newline s (take (19 - length s) rest ++ back) h)
