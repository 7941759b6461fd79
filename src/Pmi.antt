-- ===== src/Pmi.antt =====
-- What the two PMI clients, unit/pmi_client.c and unit/pmi2_client.c, have in common: a test item
-- that may return early, `log_assert`, `random_value`, the calls of the PMI library, which is not
-- part of the repository, and the loop of `main` over the items.
pub mod Rounds
pub mod Pmi2
pub mod Pmi1
use pmix_tests.Base.{
  ℕ, zero, suc, ◌+◌, ◌-◌, ◌%◌, ◌≡◌, refl, ap, Bool, true, false, ◌&&◌, ◌||◌, not, List, [], ◌∷◌,
  ◌++◌, leb, ◌==◌, if◌then◌else◌,
}
use pmix_tests.Base.Int.{ℤ, pos, negsuc, eqb}
use pmix_tests.Base.Text.{CString, codes}
use pmix_tests.Options.Numbers.{print_int}

-- What `PMI2_Init` stores, and the calls of PMI-1 one by one.
pub record Job : Type 0 where
  pub spawned : ℤ
  pub size : ℤ
  pub rank : ℤ
  pub appnum : ℤ

-- The globals of a client and the library behind it; `fatal` counts the calls of `log_fatal`.
pub record Client (L : Type 0) : Type 0 where
  pub job : Job
  pub jobid : CString
  pub legacy : Bool
  pub fatal : ℕ
  pub library : L

-- A statement of a test item goes on with a value, or returns from the item.
pub data Step {ℓ} (A : Type ℓ) : Type ℓ where
  next : A → Step A
  leave : ℤ → Step A

abbrev pub Item : Type 0 → Type 0 → Type 0
Item L A = Client L → Step A × Client L

abbrev resume : {L A B : Type 0} → (A → Item L B) → Step A × Client L → Step B × Client L
resume f (next a, c) = f a c
resume f (leave rc, c) = (leave rc, c)

infixl 5 ◌>>=◌ ◌>>◌
abbrev pub ◌>>=◌ : {L A B : Type 0} → Item L A → (A → Item L B) → Item L B
◌>>=◌ m f c = resume f (m c)

abbrev pub ◌>>◌ : {L B : Type 0} → Item L (Unit {0}) → Item L B → Item L B
m >> k = m >>= λ _. k

-- `PMI_SUCCESS` and `PMI2_SUCCESS` are 0.
abbrev pub is_success : ℤ → Bool
is_success rc = eqb rc (pos 0)

-- What a call of the library answers: its result, what it stored, and its state afterwards.
pub record Answer (L A : Type 0) : Type 0 where
  pub rc : ℤ
  pub out : A
  pub after : L

module _ {L : Type 0} where
  abbrev pub done : {A : Type 0} → A → Item L A
  done a c = (next a, c)

  abbrev pub gets : {A : Type 0} → (Client L → A) → Item L A
  gets f c = (next (f c), c)

  abbrev pub call : {A : Type 0} → (L → Answer L A) → Item L (Answer L A)
  call f c = let a = f c.library in (next a, record c { library = a.after })

  abbrev pub set_jobid : CString → Item L (Unit {0})
  set_jobid id c = (next tt, record c { jobid = id })

  abbrev pub set_job : (Job → Job) → Item L (Unit {0})
  set_job f c = (next tt, record c { job = f c.job })

  -- `if (PMI_SUCCESS != rc) { log_fatal(...); return rc; }`
  abbrev pub check : ℤ → Item L (Unit {0})
  check rc c = (
    if is_success rc then next tt else leave rc,
    record c { fatal = if is_success rc then c.fatal else c.fatal + 1 },
  )

  -- `log_assert(e, msg)` overwrites `rc` where `e` is false.
  abbrev pub log_assert : Bool → ℤ → Item L ℤ
  log_assert e rc c =
      (next (if e then rc else negsuc 0), record c { fatal = if e then c.fatal else c.fatal + 1 })

  -- Calls of `log_fatal` that leave `rc` as it is.
  abbrev pub note_fatal : ℕ → Item L (Unit {0})
  note_fatal n c = (next tt, record c { fatal = c.fatal + n })

  -- The result of an item, however it ends.
  abbrev pub returned : Step ℤ × Client L → ℤ × Client L
  returned (next rc, c) = (rc, c)
  returned (leave rc, c) = (rc, c)

module _ {L A B : Type 0} (f : A → Item L B) where
  pub bind-next :
      (m : Item L A) (c c' : Client L) (a : A) → m c ≡ (next a, c') → (m >>= f) c ≡ f a c'
  bind-next m c c' a h = ap (resume f) h

  pub bind-leave :
      (m : Item L A) (c c' : Client L) (rc : ℤ)
      → m c ≡ (leave rc, c')
      → (m >>= f) c ≡ (leave rc, c')
  bind-leave m c c' rc h = ap (resume f) h

pub check_ok : {L : Type 0} (rc : ℤ) (c : Client L) → rc ≡ pos 0 → check rc c ≡ (next tt, c)
check_ok rc c h = rw h refl

-- `random_value` with what `rand()` answers.
abbrev pub random_value : ℕ → ℕ → ℕ → ℕ
random_value rand min_value max_value =
    if leb max_value min_value then min_value else min_value + rand % (max_value - min_value + 1)

-- `i < size` for an `int` from 0 on: the number of rounds of the loop.
abbrev pub rounds : ℤ → ℕ
rounds (pos n) = n
rounds (negsuc n) = 0

abbrev pub below : ℤ → ℤ → Bool
below (pos a) (pos b) = leb (suc a) b
below (pos a) (negsuc b) = false
below (negsuc a) (pos b) = true
below (negsuc a) (negsuc b) = leb (suc b) a

abbrev pub not_negative : ℤ → Bool
not_negative (pos n) = true
not_negative (negsuc n) = false

-- `sprintf(tkey, "KEY-%d", i)` and `sprintf(tval, "VALUE-%d", i)`
unfoldable pub key_of : ℤ → CString
key_of i = codes "KEY-" ++ print_int i

unfoldable pub value_of : ℤ → CString
value_of i = codes "VALUE-" ++ print_int i

-- An item with its number.
pub record Numbered (L : Type 0) : Type 0 where
  pub number : ℕ
  pub body : Item L ℤ

-- `if (!ti || k == ti)`; the first item is always run.
abbrev pub selected : ℤ → ℕ → Bool
selected ti k = (k == 1) || eqb ti (pos 0) || eqb ti (pos k)

-- `ret += (rc ? 1 : 0)`
unfoldable pub failures : ℕ → List ℤ → ℕ
failures ret [] = ret
failures ret (rc ∷ rcs) = failures (if is_success rc then ret else ret + 1) rcs

module _ {L : Type 0} where
  abbrev run_item : ℤ → Numbered L → Client L → List ℤ × Client L
  run_item ti item c =
      let (rc, c') = returned (item.body c) in
      if selected ti item.number then (rc ∷ [], c') else ([], c)

  -- What the items that are run return, in order.
  unfoldable pub run_items : ℤ → List (Numbered L) → Client L → List ℤ × Client L
  run_items ti [] c = ([], c)
  run_items ti (item ∷ items) c =
      let (first, c') = run_item ti item c in
      let (more, c'') = run_items ti items c' in (first ++ more, c'')

  unfoldable pub main_end : (Client L → ℤ × Client L) → List ℤ × Client L → ℤ × Client L
  main_end finalize (rcs, c) =
      let (rc, c') = finalize c in if is_success rc then (pos (failures 0 rcs), c') else (rc, c')

  unfoldable pub main :
      (Client L → ℤ × Client L)
      → (Client L → ℤ × Client L)
      → List (Numbered L)
      → ℤ
      → Client L
      → ℤ × Client L
  main init finalize items ti c =
      let (rc, c') = init c in
      if is_success rc then main_end finalize (run_items ti items c') else (rc, c')
