-- ===== src/Memory/Spec.antt =====
-- What the memory backend promises, said of the abstract view of it: which object there is at each
-- path, and whether the backend is closed. The view forgets the order of the map and that it may
-- be nil.
use omnistorage.Base.{
  ℕ, suc, Bytes, bytes_eq, ◌≡◌, ◌≢◌, ◌⊎◌, Bool, true, false, List, [], ◌∷◌, ◌++◌, codes, Option,
  none, some, Error, not_found, backend_closed, message, Result, ok, err, panic, Context, take,
  if◌then◌else◌, ◌==◌,
}
use omnistorage.Base.Sort.{mem}
use omnistorage.Paths.Text.{slash, split, join, has_prefix}
use omnistorage.Paths.Normal.{normalize_path, validate_path}
use omnistorage.Memory.State.{Object, Backend, object_at}
use omnistorage.Memory.Directory.{directory}
use omnistorage.Memory.Stream.{object_of}
use omnistorage.Memory.Transfer.{restamped}
use omnistorage.Memory.Calls.{
  Call, close_writer_of, make_directory, remove_directory, copy_object, move_object, delete_object,
  clear_all, close_all, writer_of,
}

pub record Store : Type 0 where
  pub at : Bytes → Option Object
  pub closed : Bool

unfoldable pub view : Backend → Store
view b = record { at = λ q. object_at q b; closed = b.closed }

-- `and_then` is what the checks behind the first three come to.
unfoldable pub admitted : Context → Bytes → Result (Unit {0}) → Store → Result (Unit {0})
admitted ctx p and_then s = if s.closed then err backend_closed else elim ctx [
  | some e ↦ err e
  | none ↦ elim (validate_path p) [ ok _ ↦ and_then | err e ↦ err e | panic ↦ panic ]
]

-- The paths that `Mkdir` makes into directories: `take 1 parts`, `take 2 parts` and so on.
unfoldable pub ancestors : List Bytes → List Bytes → ℕ → List Bytes
ancestors parts [] i = []
ancestors parts (_ ∷ left) i = join slash (take (suc i) parts) ∷ ancestors parts left (suc i)

abbrev pub with_dir : ℕ → Bool → Option Object → Option Object
with_dir now wanted (some obj) = some obj
with_dir now wanted none = if wanted then some (directory now) else none

module _ (s : Store) (r : Result (Unit {0})) (t : Store) where
  -- The call succeeds or fails as said, and then each path has what `f` says.
  abbrev pub Leaves : Result (Unit {0}) → (Bytes → Option Object) → Type 0
  Leaves r' f = (r ≡ r') × (t.closed ≡ s.closed) × ((q : Bytes) → t.at q ≡ f q)

  -- A call that is not admitted fails with what the checks say, and changes nothing.
  abbrev pub Refuses : Result (Unit {0}) → Type 0
  Refuses checks = (e : Error) → checks ≡ err e → Leaves (err e) s.at

  -- A `Copy` or `Move` of a file that is there leaves `f` of it.
  pub record Transfers (checks : Result (Unit {0})) (src : Bytes) (refusal : Error)
      (f : Object → Bytes → Option Object) : Type 0 where
    pub refuses : Refuses checks
    pub missing : checks ≡ ok tt → s.at (normalize_path src) ≡ none → Leaves (err not_found) s.at
    pub of_directory :
        (obj : Object)
        → checks ≡ ok tt
        → s.at (normalize_path src) ≡ some obj
        → obj.is_dir ≡ true
        → Leaves (err refusal) s.at
    pub of_file :
        (obj : Object)
        → checks ≡ ok tt
        → s.at (normalize_path src) ≡ some obj
        → obj.is_dir ≡ false
        → Leaves (ok tt) (f obj)

  pub record Removes (checks : Result (Unit {0})) (p : Bytes) : Type 0 where
    pub refuses : Refuses checks
    pub missing : checks ≡ ok tt → s.at (normalize_path p) ≡ none → Leaves (err not_found) s.at
    pub of_file :
        (obj : Object)
        → checks ≡ ok tt
        → s.at (normalize_path p) ≡ some obj
        → obj.is_dir ≡ false
        → Leaves (err (message "not a directory" p)) s.at
    pub of_directory :
        (obj : Object)
        → checks ≡ ok tt
        → s.at (normalize_path p) ≡ some obj
        → obj.is_dir ≡ true
        → (((q : Bytes) → s.at q ≢ none → has_prefix q (normalize_path p ++ codes "/") ≡ false)
            × Leaves (ok tt) (λ q. if q == normalize_path p then none else s.at q))
          ⊎ ((q : Bytes) × (s.at q ≢ none)
              × (has_prefix q (normalize_path p ++ codes "/") ≡ true)
              × Leaves (err (message "directory not empty" p)) s.at)

  -- What is left of the promise of each call when the checks are made.
  abbrev pub Promise : Call → Type 0
  Promise (close_writer_of now p buffer content_type true) = Leaves (ok tt) s.at
  Promise (close_writer_of now p buffer content_type false) =
      (s.closed ≡ true → Leaves (err backend_closed) s.at)
      × (s.closed ≡ false
          → Leaves (ok tt) (λ q.
            if q == normalize_path p
            then some (object_of now (writer_of p buffer content_type false))
            else s.at q))
  Promise (make_directory ctx p now) =
      Refuses (admitted ctx p (ok tt) s)
      × (admitted ctx p (ok tt) s ≡ ok tt
          → let parts = split slash (normalize_path p) in
            Leaves (ok tt) (λ q. with_dir now (mem q (ancestors parts parts 0)) (s.at q)))
  Promise (remove_directory ctx p) = Removes (admitted ctx p (ok tt) s) p
  Promise (copy_object ctx src dst now) =
      Transfers (admitted ctx src (validate_path dst) s) src (message "cannot copy directory" src)
        (λ obj q. if q == normalize_path dst then some (restamped now obj) else s.at q)
  Promise (move_object ctx src dst now) =
      Transfers (admitted ctx src (validate_path dst) s) src (message "cannot move directory" src)
        (λ obj q.
          if q == normalize_path src
          then none
          else if q == normalize_path dst
          then some (restamped now obj)
          else s.at q)
  Promise (delete_object ctx p) =
      Refuses (admitted ctx p (ok tt) s)
      × (admitted ctx p (ok tt) s ≡ ok tt
          → Leaves (ok tt) (λ q. if q == normalize_path p then none else s.at q))
  Promise clear_all = Leaves (ok tt) (λ q. none)
  Promise close_all = (r ≡ ok tt) × (t.closed ≡ true) × ((q : Bytes) → t.at q ≡ none)
