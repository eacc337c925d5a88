-- ===== src/Memory/Refines.antt =====
-- The memory backend keeps its promises: each call on a map does what the abstract view says.
use omnistorage.Base.{
  ℕ, suc, Bytes, bytes_eq, ◌≡◌, refl, ◌≢◌, inl, inr, Bool, true, false, List, [], ◌∷◌, ◌++◌, codes,
  none, Result, ok, Context, arith, ◌==◌, take, Bool-cases,
}
use omnistorage.Base.Dict
use omnistorage.Base.Dict.{Dict}
use omnistorage.Base.Sort.{mem}
use omnistorage.Paths.Text.{slash, split, join, has_prefix}
use omnistorage.Paths.Normal.{normalize_path}
use omnistorage.Memory.State.{Object, Backend, entries, object_at, store, drop_object}
use omnistorage.Memory.Stream.{close_writer, object_of}
use omnistorage.Memory.Directory.{
  make_dir, mkdir_loop, mkdir_locked, mkdir, rmdir, directory, any_under,
}
use omnistorage.Memory.Transfer.{copy, move, delete, clear, close, restamped}
use omnistorage.Memory.Invariant.{IsValid}
use omnistorage.Memory.Directories.{not_under}
use omnistorage.Memory.Transfers.{object_at-drop_object}
use omnistorage.Memory.Calls.{
  Call, close_writer_of, make_directory, remove_directory, copy_object, move_object, delete_object,
  clear_all, close_all, writer_of, perform,
}
use omnistorage.Memory.Spec.{view, admitted, ancestors, with_dir, Promise}

-- `perform c b` behaves as the promise of `c` says.
abbrev pub Refines : Call → Backend → Type 0
Refines c b = Promise (view b) (perform c b).0 (view (perform c b).1) c

delete_lem : (ctx : Context) (p : Bytes) (b : Backend) → Refines (delete_object ctx p) b
unfolding perform delete drop_object view admitted
delete_lem ctx p b = (
  (λ e h. (ground arith, ground arith, λ q. ground arith)),
  λ h. (
    ground arith,
    ground arith,
    λ q. ground (arith, object_at-drop_object (normalize_path p) q b),
  ),
)

copy_lem :
    (ctx : Context) (src dst : Bytes) (now : ℕ) (b : Backend)
    → IsValid b
    → Refines (copy_object ctx src dst now) b
unfolding perform copy store view admitted
copy_lem ctx src dst now b v = record {
  refuses = λ e h. (ground arith, ground arith, λ q. ground arith);
  missing = λ h k. (ground arith, ground arith, λ q. ground arith);
  of_directory = λ obj h k d. (ground arith, ground arith, λ q. ground arith);
  of_file = λ obj h k d. (
    ground (arith, v.live),
    ground arith,
    λ q.
        ground (
          arith,
          v.live,
          Dict.lookup-insert q (normalize_path dst) (restamped now obj) (entries b),
        ),
  );
}

move_lem :
    (ctx : Context) (src dst : Bytes) (now : ℕ) (b : Backend)
    → IsValid b
    → Refines (move_object ctx src dst now) b
unfolding perform move store view admitted
move_lem ctx src dst now b v = record {
  refuses = λ e h. (ground arith, ground arith, λ q. ground arith);
  missing = λ h k. (ground arith, ground arith, λ q. ground arith);
  of_directory = λ obj h k d. (ground arith, ground arith, λ q. ground arith);
  of_file = λ obj h k d.
      let (made, b') = store (normalize_path dst) (restamped now obj) b in
      (
        unfold drop_object in ground (arith, v.live),
        unfold drop_object in ground (arith, v.live),
        λ q. ground (
          arith,
          v.live,
          Dict.lookup-insert q (normalize_path dst) (restamped now obj) (entries b),
          object_at-drop_object (normalize_path src) q b',
        ),
      );
}

any_under-found :
    (prefix : Bytes) (d : Dict Bytes Object)
    → any_under prefix d ≡ true
    → (q : Bytes) × (Dict.lookup q d ≢ none) × (has_prefix q prefix ≡ true)
unfolding any_under Dict.lookup
any_under-found prefix [] h = cc
any_under-found prefix ((p, obj) ∷ d) h = elim (Bool-cases (has_prefix p prefix)) [
  | inl e ↦ (p, ground arith, e)
  | inr e ↦
      let (q, there, k) = any_under-found prefix d (ground arith) in (q, ground (arith, there), k)
]

rmdir_lem : (ctx : Context) (p : Bytes) (b : Backend) → Refines (remove_directory ctx p) b
unfolding perform rmdir view admitted
rmdir_lem ctx p b = record {
  refuses = λ e h. (ground arith, ground arith, λ q. ground arith);
  missing = λ h k. (ground arith, ground arith, λ q. ground arith);
  of_file = λ obj h k d. (ground arith, ground arith, λ q. ground arith);
  of_directory = λ obj h k d.
      let prefix = normalize_path p ++ codes "/" in
      elim (Bool-cases (any_under prefix (entries b))) [
        | inl busy ↦
            let (q, there, below) = any_under-found prefix (entries b) busy in
            inr (q, there, below, (ground arith, ground arith, λ q. ground arith))
        | inr free ↦ inl (
          (λ q there. not_under prefix q (entries b) free there),
          (
            unfold drop_object in ground arith,
            unfold drop_object in ground arith,
            λ q. ground (arith, object_at-drop_object (normalize_path p) q b),
          ),
        )
      ];
}

-- The map is there, as it was, and each path has what `f` says.
MadeDirs : (Bytes → Bool) → ℕ → Backend → Result (Unit {0}) × Backend → Type 0
MadeDirs wanted now b (r, b') =
    (r ≡ ok tt)
    × (b'.closed ≡ b.closed)
    × (b'.objects ≢ none)
    × ((q : Bytes) → object_at q b' ≡ with_dir now (wanted q) (object_at q b))

make_dir_lem :
    (now : ℕ) (p : Bytes) (b : Backend)
    → b.objects ≢ none
    → MadeDirs (λ q. q == p) now b (make_dir now p b)
unfolding MadeDirs make_dir store
make_dir_lem now p b live = (
  ground arith,
  ground arith,
  ground arith,
  λ q. ground (arith, Dict.lookup-insert q p (directory now) (entries b)),
)

mkdir_loop_lem :
    (now : ℕ) (parts left : List Bytes) (i : ℕ) (b : Backend)
    → b.objects ≢ none
    → MadeDirs (λ q. mem q (ancestors parts left i)) now b (mkdir_loop now parts left i b)
unfolding MadeDirs mkdir_loop ancestors mem
mkdir_loop_lem now parts [] i b live = (refl, refl, live, λ q. ground arith)
mkdir_loop_lem now parts (w ∷ left) i b live =
    let p = join slash (take (suc i) parts) in
    let (done, same, live', first) = make_dir_lem now p b live in
    let (done', same', live'', rest) =
      mkdir_loop_lem now parts left (suc i) (make_dir now p b).1 live' in
    (
      ground (arith, done, done'),
      ground (arith, done, same, same'),
      ground (arith, done, live''),
      λ q. ground (arith, done, first q, rest q),
    )

mkdir_lem :
    (ctx : Context) (p : Bytes) (now : ℕ) (b : Backend)
    → IsValid b
    → Refines (make_directory ctx p now) b
unfolding perform mkdir mkdir_locked view admitted MadeDirs
mkdir_lem ctx p now b v = (
  (λ e h. (ground arith, ground arith, λ q. ground arith)),
  λ h.
      let parts = split slash (normalize_path p) in
      let open_now : b.closed ≡ false = ground arith in
      let (done, same, _, all) = mkdir_loop_lem now parts parts 0 b (v.live open_now) in
      (ground arith, ground arith, λ q. ground (arith, all q)),
)

close_writer_lem :
    (now : ℕ) (p buffer content_type : Bytes) (closed : Bool) (b : Backend)
    → IsValid b
    → Refines (close_writer_of now p buffer content_type closed) b
unfolding perform close_writer store view
close_writer_lem now p buffer content_type true b v = (refl, refl, λ q. refl)
close_writer_lem now p buffer content_type false b v = (
  (λ h. (ground arith, ground arith, λ q. ground arith)),
  λ h. (
    ground (arith, v.live),
    ground arith,
    λ q. ground (
      arith,
      v.live,
      Dict.lookup-insert q (normalize_path p)
          (object_of now (writer_of p buffer content_type false)) (entries b),
    ),
  ),
)

clear_lem : (b : Backend) → Refines clear_all b
unfolding perform clear view
clear_lem b = (refl, refl, λ q. Dict.lookup-nil q)

close_lem : (b : Backend) → Refines close_all b
unfolding perform close view
close_lem b = (refl, refl, λ q. Dict.lookup-nil q)

-- Each call of a valid backend keeps its promise, which is said of the abstract view alone: it
-- gives the result that the view determines, on every branch, and leaves the view that it says.
pub perform-Refines : (c : Call) (b : Backend) → IsValid b → Refines c b
perform-Refines (close_writer_of now p buffer content_type closed) b v =
    close_writer_lem now p buffer content_type closed b v
perform-Refines (make_directory ctx p now) b v = mkdir_lem ctx p now b v
perform-Refines (remove_directory ctx p) b v = rmdir_lem ctx p b
perform-Refines (copy_object ctx src dst now) b v = copy_lem ctx src dst now b v
perform-Refines (move_object ctx src dst now) b v = move_lem ctx src dst now b v
perform-Refines (delete_object ctx p) b v = delete_lem ctx p b
perform-Refines clear_all b v = clear_lem b
perform-Refines close_all b v = close_lem b
