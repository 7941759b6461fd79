-- ===== src/Pmi/Rounds.antt =====
-- The verdict of `main` in unit/pmi_client.c and unit/pmi2_client.c.
use pmix_tests.Base.{
  ℕ, ◌+◌, ◌≤◌, ◌≡◌, ◌≢◌, ◌⊎◌, refl, true, false, ◌↔◌, List, [], ◌∷◌, arith, Bool-cases, inl, inr,
  length, All,
}
use pmix_tests.Base.Int.{ℤ, pos, eqb_iff}
use pmix_tests.Pmi.{Client, selected, failures, run_items, returned, Numbered, main, main_end}

failures_zero :
    (n : ℕ) (rcs : List ℤ) → (failures n rcs ≡ 0) ↔ ((n ≡ 0) × All (λ rc. rc ≡ pos 0) rcs)
unfolding failures
failures_zero n [] = (λ e. (e, tt), λ p. p.0)
failures_zero n (rc ∷ rcs) =
    ground (arith, eqb_iff rc (pos 0), failures_zero n rcs, failures_zero (n + 1) rcs)

failures-le : (n : ℕ) (rcs : List ℤ) → failures n rcs ≤ n + length rcs
unfolding failures
failures-le n [] = omega arith
failures-le n (rc ∷ rcs) = ground (arith, failures-le n rcs, failures-le (n + 1) rcs)

module _ {L : Type 0} (ti : ℤ) where
  -- At most one result for an item.
  length-run_items :
      (items : List (Numbered L)) (s : Client L) → length (run_items ti items s).0 ≤ length items
  unfolding run_items
  length-run_items [] s = omega arith
  length-run_items (item ∷ items) s = elim (Bool-cases (selected ti item.number)) [
    | inl e ↦ rw e (omega (arith, length-run_items items (returned (item.body s)).1))
    | inr e ↦ rw e (omega (arith, length-run_items items s))
  ]

-- The items from `s` to `t`, one after the other: with `ti` 0 each of them, otherwise the first and the
-- one with the number `ti`, has run and has returned 0; the other items are left out.
pub data RanWell {L : Type 0} (ti : ℤ) : List (Numbered L) → Client L → Client L → Type 0 where
  all_done : {s : Client L} → RanWell ti [] s s
  left_out :
      {item : Numbered L} {items : List (Numbered L)} {s t : Client L}
      → ti ≢ pos 0
      → item.number ≢ 1
      → ti ≢ pos item.number
      → RanWell ti items s t
      → RanWell ti (item ∷ items) s t
  ran_zero :
      {item : Numbered L} {items : List (Numbered L)} {s t : Client L}
      → (ti ≡ pos 0) ⊎ (item.number ≡ 1) ⊎ (ti ≡ pos item.number)
      → (returned (item.body s)).0 ≡ pos 0
      → RanWell ti items (returned (item.body s)).1 t
      → RanWell ti (item ∷ items) s t

selected_iff : (ti : ℤ) (k : ℕ) → (selected ti k ≡ true) ↔ ((ti ≡ pos 0) ⊎ (k ≡ 1) ⊎ (ti ≡ pos k))
selected_iff ti k = ground (arith, eqb_iff ti (pos 0), eqb_iff ti (pos k))

selected-false : (ti : ℤ) (k : ℕ) → selected ti k ≡ false → (ti ≢ pos 0) × (k ≢ 1) × (ti ≢ pos k)
selected-false ti k h = (
  λ z. let e = (selected_iff ti k).1 (inl z) in cc,
  λ z. let e = (selected_iff ti k).1 (inr (inl z)) in cc,
  λ z. let e = (selected_iff ti k).1 (inr (inr z)) in cc,
)

module _ {L : Type 0} (ti : ℤ) where
  RanWell-of_zeros :
      (items : List (Numbered L)) (s : Client L)
      → All (λ rc. rc ≡ pos 0) (run_items ti items s).0
      → RanWell ti items s (run_items ti items s).1
  unfolding run_items
  RanWell-of_zeros [] s h = all_done
  RanWell-of_zeros (item ∷ items) s h = elim (Bool-cases (selected ti item.number)) [
    | inl e ↦
        let (first, more) = (rw e at h) in
        rw e (
          ran_zero ((selected_iff ti item.number).0 e) first
            (RanWell-of_zeros items (returned (item.body s)).1 more))
    | inr e ↦
        let (z, f, k) = selected-false ti item.number e in
        rw e (left_out z f k (RanWell-of_zeros items s (rw e at h)))
  ]

  zeros-of_RanWell :
      {items : List (Numbered L)} {s t : Client L}
      → RanWell ti items s t
      → All (λ rc. rc ≡ pos 0) (run_items ti items s).0 × ((run_items ti items s).1 ≡ t)
  unfolding run_items
  zeros-of_RanWell all_done = (tt, refl)
  zeros-of_RanWell (left_out {item} {items} {s} z f k more) =
      let e : selected ti item.number ≡ false =
        ground (arith, z, f, k, eqb_iff ti (pos 0), eqb_iff ti (pos item.number)) in
      rw e (zeros-of_RanWell more)
  zeros-of_RanWell (ran_zero {item} {items} {s} sel zero_rc more) =
      let e : selected ti item.number ≡ true = (selected_iff ti item.number).1 sel in
      let (rest, last) = zeros-of_RanWell more in rw e ((zero_rc, rest), last)

module _ {L : Type 0} (init finalize : Client L → ℤ × Client L) (items : List (Numbered L)) (ti : ℤ)
    (s : Client L) where
  abbrev pub ran : List ℤ × Client L
  ran = run_items ti items (init s).1

  main_zeros :
      ((main init finalize items ti s).0 ≡ pos 0)
      ↔ (((init s).0 ≡ pos 0) × All (λ rc. rc ≡ pos 0) ran.0 × ((finalize ran.1).0 ≡ pos 0))
  unfolding main main_end
  main_zeros =
      ground (
        arith,
        eqb_iff (init s).0 (pos 0),
        eqb_iff (finalize ran.1).0 (pos 0),
        failures_zero 0 ran.0,
      )

  -- The program ends with 0 exactly when the initialisation returns 0, then each item that the number
  -- on the command line selects, in order, and then the finalisation: without a number every item is
  -- selected, otherwise the first and the one with the number.
  pub main_ok_iff : ((main init finalize items ti s).0 ≡ pos 0) ↔ (
      ((init s).0 ≡ pos 0)
      × ((t : Client L) × RanWell ti items (init s).1 t × ((finalize t).0 ≡ pos 0)))
  main_ok_iff = (
    λ h.
        let (start, zeros, end) = main_zeros.0 h in
        (start, (ran.1, RanWell-of_zeros ti items (init s).1 zeros, end)),
    λ (start, (t, well, end)).
        let (zeros, last) = zeros-of_RanWell ti well in main_zeros.1 (start, zeros, rw last end),
  )

  -- Between an initialisation and a finalisation that succeed the result is the number of failed
  -- items, which is at most the number of the items.
  pub main_counts :
      (init s).0 ≡ pos 0
      → (finalize ran.1).0 ≡ pos 0
      → (n : ℕ) × ((main init finalize items ti s).0 ≡ pos n) × (n ≤ length items)
  unfolding main main_end
  main_counts hi hf = (
    failures 0 ran.0,
    rw (hi, hf) refl,
    omega (arith, failures-le 0 ran.0, length-run_items ti items (init s).1),
  )
