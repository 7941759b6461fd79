-- ===== src/Clients/Fence/Shared.antt =====
-- A PMIx library as unit/test_fence.c expects it of the processes of a job: what a process puts
-- with the scope PMIX_GLOBAL reaches its server with the commit, and the others with their fence.
use pmix_tests.Base.{
  ◌≡◌, Bool, true, false, ◌&&◌, ◌||◌, ◌==◌, Option, none, some, List, [], ◌∷◌, if◌then◌else◌,
}
use pmix_tests.Base.Text.{CString, str_eq}
use pmix_tests.Base.Status.{success}
use pmix_tests.Published.{Proc}
use pmix_tests.Options.Numbers.{to_u32}
use pmix_tests.Options.Ranges.{Who, wildcard, rank, Participant}
use pmix_tests.Clients.{Value, global, Library}
use pmix_tests.Clients.Store.{same_proc}

abbrev includes : Who → Proc → Bool
includes wildcard p = true
includes (rank r) p = p.rank == to_u32 r

-- Does the list of participants of a fence have the process?
unfoldable pub is_member : Proc → List Participant → Bool
is_member p [] = false
is_member p (m ∷ ms) = str_eq p.nspace m.nspace && includes m.who p || is_member p ms

-- The first value, if there is one.
unfoldable pub or_else : {A : Type 0} → Option A → Option A → Option A
or_else (some a) old = some a
or_else none old = old

-- `staged s c` is what `c` has put, `committed s p` what `p` has sent to its server, and `visible s c p`
-- what a Get of `c` answers under the keys of `p`. A put changes nothing that another process can see,
-- nor does a commit: only its own fence gives a process what its participants have committed.
pub record IsExchange {L F : Type 0} (lib : Proc → Library L F)
    (staged committed : L → Proc → CString → Option (Value F))
    (visible : L → Proc → Proc → CString → Option (Value F)) : Type 0 where
  pub put_status :
      (c : Proc) (k : CString) (v : Value F) (s : L) → ((lib c).put global k v s).0 ≡ success
  pub put_staged :
      (c : Proc) (k : CString) (v : Value F) (s : L) (j : CString)
      → staged ((lib c).put global k v s).1 c j ≡ (if str_eq j k then some v else staged s c j)
  pub put_committed :
      (c : Proc) (k : CString) (v : Value F) (s : L) (p : Proc) (j : CString)
      → committed ((lib c).put global k v s).1 p j ≡ committed s p j
  pub put_others :
      (c : Proc) (k : CString) (v : Value F) (s : L) (q p : Proc) (j : CString)
      → same_proc q c ≡ false
      → visible ((lib c).put global k v s).1 q p j ≡ visible s q p j
  pub commit_status : (c : Proc) (s : L) → ((lib c).commit s).0 ≡ success
  pub commit_committed :
      (c : Proc) (s : L) (p : Proc) (j : CString)
      → committed ((lib c).commit s).1 p j
        ≡ (if same_proc p c then or_else (staged s p j) (committed s p j) else committed s p j)
  pub commit_others :
      (c : Proc) (s : L) (q p : Proc) (j : CString)
      → same_proc q c ≡ false
      → visible ((lib c).commit s).1 q p j ≡ visible s q p j
  pub fence_status :
      (c : Proc) (collect : Bool) (procs : List Participant) (s : L)
      → ((lib c).fence collect procs s).0 ≡ success
  pub fence_committed :
      (c : Proc) (collect : Bool) (procs : List Participant) (s : L) (p : Proc) (j : CString)
      → committed ((lib c).fence collect procs s).1 p j ≡ committed s p j
  pub fence_visible :
      (c : Proc) (collect : Bool) (procs : List Participant) (s : L) (p : Proc) (j : CString)
      → visible ((lib c).fence collect procs s).1 c p j ≡ (
          if is_member p procs
          then or_else (committed s p j) (visible s c p j)
          else visible s c p j)
  pub fence_nb :
      (c : Proc) (procs : List Participant) (s : L)
      → (s' : L) × ((lib c).fence_nb procs s ≡ (success, true, s'))
        × ((p : Proc) (j : CString) → committed s' p j ≡ committed s p j)
        × ((p : Proc) (j : CString)
            → visible s' c p j ≡ (
                if is_member p procs
                then or_else (committed s p j) (visible s c p j)
                else visible s c p j))
  pub get :
      (c p : Proc) (k : CString) (s : L) (v : Value F)
      → visible s c p k ≡ some v
      → (s' : L) × ((lib c).get p k s ≡ (success, some v, s'))
        × ((q : Proc) (j : CString) → visible s' c q j ≡ visible s c q j)
        × ((q : Proc) (j : CString) → committed s' q j ≡ committed s q j)
  pub get_nb :
      (c p : Proc) (k : CString) (s : L) (v : Value F)
      → visible s c p k ≡ some v
      → (s' : L) × ((lib c).get_nb p k s ≡ (success, some (success, v), s'))
        × ((q : Proc) (j : CString) → visible s' c q j ≡ visible s c q j)
        × ((q : Proc) (j : CString) → committed s' q j ≡ committed s q j)
