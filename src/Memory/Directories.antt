-- ===== src/Memory/Directories.antt =====
-- What `Mkdir` and `Rmdir` leave at every path.
use omnistorage.Base.{
  ℕ, suc, ◌+◌, ◌≤◌, ◌<◌, Bytes, bytes_eq, ◌≡◌, refl, ◌∙◌, ◌≢◌, ◌⊎◌, inl, inr, true, false, Option,
  none, some, arith,
}
use omnistorage.Base.{
  List, [], ◌∷◌, ◌++◌, codes, take, length, ok, Context, if◌then◌else◌, ◌==◌, Option-cases,
}
use omnistorage.Base.{ap, sym, dec_lt}
use omnistorage.Base.Action.{>>=-eq-ok}
use omnistorage.Base.Dict
use omnistorage.Base.Dict.{Dict}
use omnistorage.Paths.Text.{slash, split, join, has_prefix}
use omnistorage.Paths.Normal.{normalize_path}
use omnistorage.Memory.State.{Object, Backend, entries, object_at, store, guards}
use omnistorage.Memory.Directory.{
  make_dir, mkdir_loop, mkdir_locked, mkdir, rmdir, directory, any_under,
}
use omnistorage.Memory.Transfers.{object_at-drop_object}

-- A path has what it had, or it had nothing and is a directory now.
abbrev pub Gains : ℕ → Option Object → Option Object → Type 0
Gains now before after = (after ≡ before) ⊎ ((before ≡ none) × (after ≡ some (directory now)))

Gains-trans : (now : ℕ) (a b c : Option Object) → Gains now a b → Gains now b c → Gains now a c
Gains-trans now a b c g h = ground arith

make_dir_effect :
    (now : ℕ) (p : Bytes) (b : Backend)
    → (make_dir now p b).0 ≡ ok tt
    → (object_at p (make_dir now p b).1 ≢ none)
      × ((q : Bytes) → Gains now (object_at q b) (object_at q (make_dir now p b).1))
unfolding make_dir store
make_dir_effect now p b done = (
  ground (arith, Dict.lookup-insert p p (directory now) (entries b)),
  λ q. ground (arith, Dict.lookup-insert q p (directory now) (entries b)),
)

mkdir_loop_effect :
    (now : ℕ) (parts left : List Bytes) (i : ℕ) (b : Backend)
    → (mkdir_loop now parts left i b).0 ≡ ok tt
    → ((j : ℕ)
        → i ≤ j
        → j < i + length left
        → object_at (join slash (take (suc j) parts)) (mkdir_loop now parts left i b).1 ≢ none)
      × ((q : Bytes) → Gains now (object_at q b) (object_at q (mkdir_loop now parts left i b).1))
unfolding mkdir_loop
mkdir_loop_effect now parts [] i b done = ((λ j h k. absurd (omega arith)), λ q. inl refl)
mkdir_loop_effect now parts (w ∷ left) i b done =
    let p = join slash (take (suc i) parts) in
    let (_, made, eq) =
      >>=-eq-ok (make_dir now p) (λ _. mkdir_loop now parts left (suc i)) b done in
    let first = make_dir_effect now p b made in
    let rest =
      mkdir_loop_effect now parts left (suc i) (make_dir now p b).1
        (ap (λ r. r.0) (sym eq) ∙ done) in
    rw eq (
      λ j h k. elim (dec_lt i j) [
        | yes later ↦ rest.0 j later (omega arith)
        | no here ↦ let e : j ≡ i = omega arith in rw e (ground (arith, rest.1 p))
      ],
      λ q. Gains-trans now _ _ _ (first.1 q) (rest.1 q),
    )

-- A `Mkdir` that succeeds has something at the path and at each of its ancestors. It adds
-- nothing but directories and changes nothing that was there.
pub mkdir_effect :
    (ctx : Context) (p : Bytes) (now : ℕ) (b : Backend)
    → (mkdir ctx p now b).0 ≡ ok tt
    → let parts = split slash (normalize_path p) in
      ((j : ℕ)
        → j < length parts
        → object_at (join slash (take (suc j) parts)) (mkdir ctx p now b).1 ≢ none)
      × ((q : Bytes) → Gains now (object_at q b) (object_at q (mkdir ctx p now b).1))
unfolding mkdir mkdir_locked
mkdir_effect ctx p now b done =
    let parts = split slash (normalize_path p) in
    let (_, guarded, eq) = >>=-eq-ok (guards ctx p) (λ _. mkdir_loop now parts parts 0) b done in
    let same : (guards ctx p b).1 ≡ b = ground arith in
    let e = eq ∙ ap (mkdir_loop now parts parts 0) same in
    let effect = mkdir_loop_effect now parts parts 0 b (ap (λ r. r.0) (sym e) ∙ done) in
    rw e ((λ j h. effect.0 j (omega arith) (omega arith)), effect.1)

pub not_under :
    (prefix q : Bytes) (d : Dict Bytes Object)
    → any_under prefix d ≡ false
    → Dict.lookup q d ≢ none
    → has_prefix q prefix ≡ false
unfolding any_under Dict.lookup
not_under prefix q [] h k = absurd (k refl)
not_under prefix q (e ∷ d) h k = ground (arith, not_under prefix q d)

-- An `Rmdir` that succeeds has found a directory, and nothing in the map below it. It takes the
-- directory away and no other path.
pub rmdir_effect :
    (ctx : Context) (p : Bytes) (b : Backend)
    → (rmdir ctx p b).0 ≡ ok tt
    → (obj : Object) × ((object_at (normalize_path p) b ≡ some obj) × (obj.is_dir ≡ true))
      × ((q : Bytes) → object_at q b ≢ none → has_prefix q (normalize_path p ++ codes "/") ≡ false)
      × ((q : Bytes)
          → object_at q (rmdir ctx p b).1 ≡ (if q == normalize_path p then none else object_at q b))
unfolding rmdir
rmdir_effect ctx p b done = elim (Option-cases (object_at (normalize_path p) b)) [
  | inl e ↦ absurd (ground arith)
  | inr (obj, e) ↦ (
    obj,
    ground arith,
    λ q there. ground (arith, not_under (normalize_path p ++ codes "/") q (entries b)),
    λ q. ground (arith, object_at-drop_object (normalize_path p) q b),
  )
]
