-- ===== src/Server/Bytes.antt =====
-- What `memcpy` of an `int` (4 bytes), a `size_t` (8 bytes) and a fixed `char` array writes into a
-- message of unit/test_server.c and reads back from it, on a little-endian machine. Both ends of a
-- message run on one machine. A read past the end of the buffer is `fault`.
use native.Mathlib.Nat.{pow-suc, mul_comm}
use pmix_tests.Base.{
  ℕ, zero, suc, ◌+◌, ◌-◌, ◌*◌, ◌/◌, ◌%◌, ◌^◌, ◌<◌, ◌≤◌, ◌≡◌, refl, ap, List, [], ◌∷◌, ◌++◌, arith,
  leb, ◌==◌, if◌then◌else◌, length, length-append, length-replicate, take, drop, take-append,
  drop-append, replicate, All, Run, ok, fault, ◌>>=◌,
}
use pmix_tests.Base.Text.{CString}

abbrev pub int_size : ℕ
int_size = 4

abbrev pub size_t_size : ℕ
size_t_size = 8

-- The `w` bytes of a number, the lowest first.
unfoldable pub put : ℕ → ℕ → List ℕ
put zero n = []
put (suc w) n = (n % 256) ∷ put w (n / 256)

value : List ℕ → ℕ
value [] = 0
value (b ∷ bs) = b + 256 * value bs

-- The next `n` bytes, and what follows them.
unfoldable pub read_bytes : ℕ → List ℕ → Run (List ℕ × List ℕ)
read_bytes n bs = if leb n (length bs) then ok (take n bs, drop n bs) else fault

unfoldable pub read : ℕ → List ℕ → Run (ℕ × List ℕ)
unfolding value
read w bs = do (field, rest) ← read_bytes w bs; ok (value field, rest)

-- A string in a `char` array of `w` bytes that was cleared before.
unfoldable pub put_name : ℕ → CString → List ℕ
put_name w s = s ++ replicate (w - length s) 0

-- The string that starts at a byte.
unfoldable pub to_string : List ℕ → CString
to_string [] = []
to_string (b ∷ bs) = if b == 0 then [] else b ∷ to_string bs

unfoldable pub read_name : ℕ → List ℕ → Run (CString × List ℕ)
unfolding to_string
read_name w bs = do (field, rest) ← read_bytes w bs; ok (to_string field, rest)

pub length-put : (w n : ℕ) → length (put w n) ≡ w
unfolding put
length-put zero n = refl
length-put (suc w) n = ap suc (length-put w (n / 256))

value-put : (w n : ℕ) → n < 256 ^ w → value (put w n) ≡ n
unfolding value put
value-put zero n h = omega arith
value-put (suc w) n h =
    let e : 256 ^ suc w ≡ 256 * 256 ^ w = rw pow-suc (mul_comm (256 ^ w) 256) in
    omega (arith, value-put w (n / 256) (omega arith))

pub read_bytes-append :
    (bs rest : List ℕ) (n : ℕ) → length bs ≡ n → read_bytes n (bs ++ rest) ≡ ok (bs, rest)
unfolding read_bytes
read_bytes-append bs rest n e =
    rw (← e) (ground (arith, length-append bs rest, take-append bs rest, drop-append bs rest))

pub read-put : (w n : ℕ) (rest : List ℕ) → n < 256 ^ w → read w (put w n ++ rest) ≡ ok (n, rest)
unfolding read
read-put w n rest h =
    rw (read_bytes-append (put w n) rest w (length-put w n))
      (ap (λ k. ok (k, rest)) (value-put w n h))

abbrev pub NonZero : CString → Type 0
NonZero = All (λ b. 0 < b)

to_string-pad : (s : CString) (k : ℕ) → NonZero s → to_string (s ++ replicate k 0) ≡ s
unfolding to_string
to_string-pad [] zero h = refl
to_string-pad [] (suc k) h = refl
to_string-pad (b ∷ s) k h = ground (arith, to_string-pad s k h.1, h.0)

pub length-put_name : (w : ℕ) (s : CString) → length s ≤ w → length (put_name w s) ≡ w
unfolding put_name
length-put_name w s h =
    omega (
      arith,
      length-append s (replicate (w - length s) 0),
      length-replicate {A = ℕ} (w - length s) 0,
    )

to_string-put_name : (w : ℕ) (s : CString) → NonZero s → to_string (put_name w s) ≡ s
unfolding put_name
to_string-put_name w s z = to_string-pad s (w - length s) z

pub read_name-put_name :
    (w : ℕ) (s : CString) (rest : List ℕ)
    → length s ≤ w
    → NonZero s
    → read_name w (put_name w s ++ rest) ≡ ok (s, rest)
unfolding read_name
read_name-put_name w s rest h z =
    rw (read_bytes-append (put_name w s) rest w (length-put_name w s h))
      (rw (to_string-put_name w s z))
