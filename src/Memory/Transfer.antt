-- ===== src/Memory/Transfer.antt =====
-- `Copy`, `Move`, `Delete`, `Clear` and `Close` of the backend.
use omnistorage.Base.{ℕ, Bytes, bytes_eq, true, false, [], none, some}
use omnistorage.Base.{message, not_found, Context, ok}
use omnistorage.Base.Action.{Action, ◌>>=◌, ◌>>◌, gets, found, fail_when, lift}
use omnistorage.Paths.Normal.{normalize_path, validate_path}
use omnistorage.Memory.State.{Object, Backend, object_at, store, drop_object, guards}

-- The new object that holds the data of the old one.
abbrev pub restamped : ℕ → Object → Object
restamped now obj = record {
  data_bytes = obj.data_bytes;
  content_type = obj.content_type;
  mod_time = now;
  is_dir = false;
}

unfoldable pub copy : Context → Bytes → Bytes → ℕ → Action Backend (Unit {0})
copy ctx src dst now = do
  guards ctx src
  lift (validate_path dst)
  obj ← found (← gets (object_at (normalize_path src))) not_found
  fail_when obj.is_dir (message "cannot copy directory" src)
  store (normalize_path dst) (restamped now obj)

unfoldable pub move : Context → Bytes → Bytes → ℕ → Action Backend (Unit {0})
move ctx src dst now = do
  guards ctx src
  lift (validate_path dst)
  obj ← found (← gets (object_at (normalize_path src))) not_found
  fail_when obj.is_dir (message "cannot move directory" src)
  store (normalize_path dst) (restamped now obj)
  drop_object (normalize_path src)

unfoldable pub delete : Context → Bytes → Action Backend (Unit {0})
delete ctx p = guards ctx p >> drop_object (normalize_path p)

-- `Clear`, which makes a new map, also in a closed backend.
unfoldable pub clear : Backend → Backend
clear b = record b { objects = some [] }

-- `Close`: the map becomes nil.
unfoldable pub close : Action Backend (Unit {0})
close b = (ok tt, record { objects = none; closed = true })
