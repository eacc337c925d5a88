-- ===== src/Memory/Transfers.antt =====
-- What `Copy`, `Move` and `Delete` leave at every path.
use omnistorage.Base.{ℕ, Bytes, bytes_eq, ◌≡◌, ◌↔◌, false, none, some, arith}
use omnistorage.Base.{ok, Context, if◌then◌else◌, ◌==◌, Option-cases, inl, inr}
use omnistorage.Base.Dict
use omnistorage.Paths.Normal.{normalize_path, validate_path}
use omnistorage.Memory.State.{Object, Backend, entries, object_at, store, drop_object}
use omnistorage.Memory.Transfer.{copy, move, delete, restamped}

pub object_at-drop_object :
    (p q : Bytes) (b : Backend)
    → object_at q (drop_object p b).1 ≡ (if q == p then none else object_at q b)
unfolding drop_object
object_at-drop_object p q b =
    ground (arith, Dict.lookup-erase q p (entries b), Dict.lookup-nil {V = Object} q)

-- A `Copy` that succeeds has found a file at the source. It puts the file's data and content type
-- at the destination, and all other paths keep what they have.
pub copy_effect :
    (ctx : Context) (src dst : Bytes) (now : ℕ) (b : Backend)
    → (copy ctx src dst now b).0 ≡ ok tt
    → (obj : Object) × ((object_at (normalize_path src) b ≡ some obj) × (obj.is_dir ≡ false))
      × ((q : Bytes)
          → object_at q (copy ctx src dst now b).1
            ≡ (if q == normalize_path dst then some (restamped now obj) else object_at q b))
unfolding copy store
copy_effect ctx src dst now b done = elim (Option-cases (object_at (normalize_path src) b)) [
  | inl e ↦ absurd (ground arith)
  | inr (obj, e) ↦ (
    obj,
    ground arith,
    λ q. ground (arith, Dict.lookup-insert q (normalize_path dst) (restamped now obj) (entries b)),
  )
]

-- A `Move` that succeeds has found a file at the source. It puts the file's data and content type
-- at the destination and takes the source away, in this order; all other paths keep what they
-- have.
pub move_effect :
    (ctx : Context) (src dst : Bytes) (now : ℕ) (b : Backend)
    → (move ctx src dst now b).0 ≡ ok tt
    → (obj : Object) × ((object_at (normalize_path src) b ≡ some obj) × (obj.is_dir ≡ false))
      × ((q : Bytes)
          → object_at q (move ctx src dst now b).1 ≡ (
              if q == normalize_path src
              then none
              else if q == normalize_path dst
              then some (restamped now obj)
              else object_at q b))
unfolding move store
move_effect ctx src dst now b done = elim (Option-cases (object_at (normalize_path src) b)) [
  | inl e ↦ absurd (ground arith)
  | inr (obj, e) ↦ (
    obj,
    ground arith,
    λ q. ground (
      arith,
      Dict.lookup-insert q (normalize_path dst) (restamped now obj) (entries b),
      object_at-drop_object (normalize_path src) q
          (store (normalize_path dst) (restamped now obj) b).1,
    ),
  )
]

-- A `Delete` succeeds exactly when the backend is open, the context live and the path valid,
-- whether there is anything at the path or not. Then nothing is left at the path, and every other
-- path keeps what it has.
pub delete_effect :
    (ctx : Context) (p : Bytes) (b : Backend)
    → ((delete ctx p b).0 ≡ ok tt ↔ ((b.closed ≡ false) × (ctx ≡ none) × (validate_path p ≡ ok tt)))
      × ((delete ctx p b).0 ≡ ok tt
          → (q : Bytes)
          → object_at q (delete ctx p b).1
            ≡ (if q == normalize_path p then none else object_at q b))
unfolding delete drop_object
delete_effect ctx p b = (
  (λ done. (ground arith, ground arith, ground arith), λ (open_now, live, valid). ground arith),
  λ done q. ground (arith, object_at-drop_object (normalize_path p) q b),
)
