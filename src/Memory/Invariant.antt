-- ===== src/Memory/Invariant.antt =====
-- What holds of every memory backend: the map is not nil while the backend is open, no path is
-- in it twice, and each path is in normal form. Every method keeps it, and none panics.
use omnistorage.Base.{ℕ, suc, Bytes, bytes_eq, ◌≡◌, ◌≢◌, ◌⊎◌, false, List, [], ◌∷◌}
use omnistorage.Base.{none, arith, Result, ok, err, panic, invalid_path, Context, take, inl, inr}
use omnistorage.Base.Dict
use omnistorage.Base.Dict.{Dict, NodupKeys}
use omnistorage.Paths.Text.{slash, split, join}
use omnistorage.Paths.Normal.{normalize_path, validate_path}
use omnistorage.Paths.Confined.{normalize_idem, ancestors_normal}
use omnistorage.Memory.State.{Object, Backend, entries, store, drop_object}
use omnistorage.Memory.Stream.{MemoryWriter, close_writer, object_of}
use omnistorage.Memory.Directory.{make_dir, mkdir_loop, mkdir_locked, mkdir, rmdir, directory}
use omnistorage.Memory.Transfer.{copy, move, delete, clear, close, restamped}

abbrev pub IsNormal : Bytes → Type 0
IsNormal p = normalize_path p ≡ p

abbrev pub NormalKeys : Dict Bytes Object → Type 0
NormalKeys [] = Unit
NormalKeys ((p, _) ∷ d) = IsNormal p × NormalKeys d

pub record IsValid (b : Backend) : Type 0 where
  pub live : b.closed ≡ false → b.objects ≢ none
  pub nodup : NodupKeys (entries b)
  pub normal : NormalKeys (entries b)

insert-NormalKeys :
    (p : Bytes) (obj : Object) (d : Dict Bytes Object)
    → IsNormal p
    → NormalKeys d
    → NormalKeys (Dict.insert p obj d)
unfolding Dict.insert
insert-NormalKeys p obj [] n h = (n, tt)
insert-NormalKeys p obj (e ∷ d) n h = ground (arith, insert-NormalKeys p obj d n h.1)

erase-NormalKeys : (p : Bytes) (d : Dict Bytes Object) → NormalKeys d → NormalKeys (Dict.erase p d)
unfolding Dict.erase
erase-NormalKeys p [] h = tt
erase-NormalKeys p (e ∷ d) h = ground (arith, erase-NormalKeys p d h.1)

-- How a call that may have changed the backend ends: not in a panic, and in a valid state.
abbrev pub Keeps : {A : Type 0} → Result A × Backend → Type 0
Keeps r = (r.0 ≢ panic) × IsValid r.1

store-Keeps :
    (p : Bytes) (obj : Object) (b : Backend)
    → b.closed ≡ false
    → IsNormal p
    → IsValid b
    → Keeps (store p obj b) × ((store p obj b).1.closed ≡ false)
unfolding store
store-Keeps p obj b unclosed n v = ground (
  arith,
  v.live,
  v.nodup,
  v.normal,
  Dict.insert-NodupKeys p obj (entries b) v.nodup,
  insert-NormalKeys p obj (entries b) n v.normal,
)

drop_object-Keeps : (p : Bytes) (b : Backend) → IsValid b → Keeps (drop_object p b)
unfolding drop_object
drop_object-Keeps p b v =
    ground
      (arith, Dict.erase-NodupKeys p (entries b) v.nodup, erase-NormalKeys p (entries b) v.normal)

IsNormal-normalize_path : (p : Bytes) → IsNormal (normalize_path p)
IsNormal-normalize_path p = normalize_idem p

pub copy-Keeps :
    (ctx : Context) (src dst : Bytes) (now : ℕ) (b : Backend)
    → IsValid b
    → Keeps (copy ctx src dst now b)
unfolding copy validate_path
copy-Keeps ctx src dst now b v = grind (
  arith,
  λ (obj : Object). store-Keeps (normalize_path dst) (restamped now obj) b,
  normalize_idem dst,
)

pub delete-Keeps : (ctx : Context) (p : Bytes) (b : Backend) → IsValid b → Keeps (delete ctx p b)
unfolding delete validate_path
delete-Keeps ctx p b v = ground (arith, drop_object-Keeps (normalize_path p) b v)

pub rmdir-Keeps : (ctx : Context) (p : Bytes) (b : Backend) → IsValid b → Keeps (rmdir ctx p b)
unfolding rmdir validate_path
rmdir-Keeps ctx p b v = ground (arith, drop_object-Keeps (normalize_path p) b v)

pub clear-IsValid : (b : Backend) → IsValid (clear b)
unfolding clear
clear-IsValid b = record { live = λ _. λ e. cc; nodup = tt; normal = tt }

pub close-Keeps : (b : Backend) → Keeps (close b)
unfolding close
close-Keeps b = ((λ e. cc), record { live = λ e. cc; nodup = tt; normal = tt })

pub close_writer-Keeps :
    (now : ℕ) (w : MemoryWriter) (b : Backend)
    → IsNormal w.path
    → IsValid b
    → let (r, s) = close_writer now (w, b) in Keeps (r, s.1)
unfolding close_writer
close_writer-Keeps now w b n v = ground (arith, store-Keeps w.path (object_of now w) b)

pub move-Keeps :
    (ctx : Context) (src dst : Bytes) (now : ℕ) (b : Backend)
    → IsValid b
    → Keeps (move ctx src dst now b)
unfolding move validate_path
move-Keeps ctx src dst now b v = grind (
  arith,
  λ (obj : Object). store-Keeps (normalize_path dst) (restamped now obj) b,
  λ (obj : Object).
      drop_object-Keeps (normalize_path src) (store (normalize_path dst) (restamped now obj) b).1,
  normalize_idem dst,
)

make_dir-Keeps :
    (now : ℕ) (p : Bytes) (b : Backend)
    → b.closed ≡ false
    → IsNormal p
    → IsValid b
    → Keeps (make_dir now p b) × ((make_dir now p b).1.closed ≡ false)
unfolding make_dir
make_dir-Keeps now p b unclosed n v = ground (arith, store-Keeps p (directory now) b unclosed n v)

mkdir_loop-Keeps :
    (now : ℕ) (parts left : List Bytes) (i : ℕ) (b : Backend)
    → b.closed ≡ false
    → ((n : ℕ) → IsNormal (join slash (take n parts)))
    → IsValid b
    → Keeps (mkdir_loop now parts left i b)
unfolding mkdir_loop
mkdir_loop-Keeps now parts [] i b unclosed n v = ((λ e. cc), v)
mkdir_loop-Keeps now parts (_ ∷ left) i b unclosed n v =
    let p = join slash (take (suc i) parts) in
    ground (
      arith,
      make_dir-Keeps now p b unclosed (n (suc i)) v,
      λ (c : (make_dir now p b).1.closed ≡ false) (w : IsValid (make_dir now p b).1).
          mkdir_loop-Keeps now parts left (suc i) (make_dir now p b).1 c n w,
    )

validate_path-cases : (p : Bytes) → (validate_path p ≡ ok tt) ⊎ (validate_path p ≡ err invalid_path)
unfolding validate_path
validate_path-cases p = ground arith

mkdir_locked-Keeps :
    (now : ℕ) (p : Bytes) (b : Backend)
    → b.closed ≡ false
    → validate_path p ≡ ok tt
    → IsValid b
    → Keeps (mkdir_locked now (normalize_path p) b)
unfolding mkdir_locked
mkdir_locked-Keeps now p b unclosed h v =
    let parts = split slash (normalize_path p) in
    mkdir_loop-Keeps now parts parts 0 b unclosed (ancestors_normal p h) v

pub mkdir-Keeps :
    (ctx : Context) (p : Bytes) (now : ℕ) (b : Backend) → IsValid b → Keeps (mkdir ctx p now b)
unfolding mkdir
mkdir-Keeps ctx p now b v = elim (validate_path-cases p) [
  | inl h ↦ ground (arith, mkdir_locked-Keeps now p b, h)
  | inr h ↦ ground (arith, h)
]
