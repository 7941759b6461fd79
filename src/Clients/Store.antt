-- ===== src/Clients/Store.antt =====
-- A PMIx library as unit/test_replace.c and unit/test_internal.c expect it of one process: its calls
-- succeed, and a Get of its own keys answers what it has put or stored last.
use pmix_tests.Base.{◌≡◌, Bool, ◌&&◌, ◌==◌, Option, some, List, if◌then◌else◌}
use pmix_tests.Base.Text.{CString, str_eq}
use pmix_tests.Base.Status.{success}
use pmix_tests.Published.{Proc}
use pmix_tests.Options.Ranges.{Participant}
use pmix_tests.Clients.{Value, Scope, Library}

abbrev pub same_proc : Proc → Proc → Bool
same_proc a b = str_eq a.nspace b.nspace && (a.rank == b.rank)

-- `view s c` is what the process `c` gets under its own keys. Nothing is said of what another process
-- sees of them.
pub record IsStore {L F : Type 0} (lib : Proc → Library L F)
    (view : L → Proc → CString → Option (Value F)) : Type 0 where
  pub put_status :
      (c : Proc) (scope : Scope) (k : CString) (v : Value F) (s : L)
      → ((lib c).put scope k v s).0 ≡ success
  pub put_view :
      (c : Proc) (scope : Scope) (k : CString) (v : Value F) (s : L) (j : CString)
      → view ((lib c).put scope k v s).1 c j ≡ (if str_eq j k then some v else view s c j)
  pub internal_status :
      (c : Proc) (k : CString) (v : Value F) (s : L) → ((lib c).store_internal c k v s).0 ≡ success
  pub internal_view :
      (c : Proc) (k : CString) (v : Value F) (s : L) (j : CString)
      → view ((lib c).store_internal c k v s).1 c j ≡ (if str_eq j k then some v else view s c j)
  pub commit_status : (c : Proc) (s : L) → ((lib c).commit s).0 ≡ success
  pub commit_view : (c : Proc) (s : L) (j : CString) → view ((lib c).commit s).1 c j ≡ view s c j
  pub fence_status :
      (c : Proc) (collect : Bool) (procs : List Participant) (s : L)
      → ((lib c).fence collect procs s).0 ≡ success
  pub fence_view :
      (c : Proc) (collect : Bool) (procs : List Participant) (s : L) (j : CString)
      → view ((lib c).fence collect procs s).1 c j ≡ view s c j
  pub get :
      (c : Proc) (k : CString) (s : L) (v : Value F)
      → view s c k ≡ some v
      → (s' : L) × ((lib c).get c k s ≡ (success, some v, s'))
        × ((j : CString) → view s' c j ≡ view s c j)
