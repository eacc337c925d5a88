-- ===== src/Memory/State.antt =====
-- The objects, the backend with its map, and the guards that each method begins with.
-- A lock guards each method, so a method is one step; what may happen between the check and the
-- locked part of a method is the subject of Directory.
use omnistorage.Base.{ℕ, Bytes, bytes_eq, Bool, false, [], Option, none, some}
use omnistorage.Base.{if◌then◌else◌, ok, err, panic, backend_closed, Context}
use omnistorage.Base.Action.{Action, ◌>>◌, check_ctx, lift}
use omnistorage.Base.Dict
use omnistorage.Base.Dict.{Dict}
use omnistorage.Paths.Normal.{validate_path}

-- `modTime` counts from the zero time.
pub record Object : Type 0 where
  pub data_bytes : Bytes
  pub content_type : Bytes
  pub mod_time : ℕ
  pub is_dir : Bool

-- `objects` is `none` where the map is nil.
pub record Backend : Type 0 where
  pub objects : Option (Dict Bytes Object)
  pub closed : Bool

-- `memory.New`
abbrev pub new : Backend
new = record { objects = some []; closed = false }

-- A nil map reads as an empty one.
abbrev pub entries : Backend → Dict Bytes Object
entries b = elim b.objects [ none ↦ [] | some d ↦ d ]

abbrev pub object_at : Bytes → Backend → Option Object
object_at p b = Dict.lookup p (entries b)

-- `b.objects[p] = obj`, which panics where the map is nil.
unfoldable pub store : Bytes → Object → Action Backend (Unit {0})
store p obj b = elim b.objects [
  | none ↦ (panic, b)
  | some d ↦ (ok tt, record b { objects = some (Dict.insert p obj d) })
]

-- `delete(b.objects, p)`, which does nothing where the map is nil.
unfoldable pub drop_object : Bytes → Action Backend (Unit {0})
drop_object p b = elim b.objects [
  | none ↦ (ok tt, b)
  | some d ↦ (ok tt, record b { objects = some (Dict.erase p d) })
]

abbrev pub check_closed : Action Backend (Unit {0})
check_closed b = (if b.closed then err backend_closed else ok tt, b)

-- `checkClosed`, `ctx.Err` and `validatePath`, in this order.
abbrev pub guards : Context → Bytes → Action Backend (Unit {0})
guards ctx p = check_closed >> check_ctx ctx >> lift (validate_path p)
