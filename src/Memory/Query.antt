-- ===== src/Memory/Query.antt =====
-- `NewReader`, `Exists`, `Stat`, `Size` and `Count`.
use omnistorage.Base.{ℕ, suc, ◌+◌, Bytes, bytes_eq, Bool, true, false, [], ◌∷◌, Option, none, some}
use omnistorage.Base.{if◌then◌else◌, length, take, drop, leb, ltb, message, not_found, Context}
use omnistorage.Base.Int.{ℤ, pos, negsuc}
use omnistorage.Base.Action.{Action, ◌>>=◌, ◌>>◌, pure, gets, found, fail_when}
use omnistorage.Base.Dict.{Dict}
use omnistorage.Options.{ReaderConfig}
use omnistorage.Paths.Normal.{normalize_path}
use omnistorage.Memory.State.{Object, Backend, entries, object_at, guards}

-- The slice from `config.Offset` on, if that is positive.
unfoldable pub apply_offset : ℤ → Bytes → Bytes
apply_offset (negsuc n) bytes = bytes
apply_offset (pos n) bytes =
    if ltb 0 n then (if leb (length bytes) n then [] else drop n bytes) else bytes

-- The slice up to `config.Limit`, if that is positive.
unfoldable pub apply_limit : ℤ → Bytes → Bytes
apply_limit (negsuc n) bytes = bytes
apply_limit (pos n) bytes =
    if ltb 0 n then (if ltb n (length bytes) then take n bytes else bytes) else bytes

-- What the reader of `NewReader` will deliver: a copy, so later writes do not show in it.
unfoldable pub new_reader : Context → Bytes → ReaderConfig → Action Backend Bytes
new_reader ctx p config = do
  guards ctx p
  obj ← found (← gets (object_at (normalize_path p))) not_found
  fail_when obj.is_dir (message "cannot read directory" p)
  pure (apply_limit config.limit (apply_offset config.offset obj.data_bytes))

abbrev is_some : Option Object → Bool
is_some none = false
is_some (some _) = true

unfoldable pub exists : Context → Bytes → Action Backend Bool
exists ctx p = do guards ctx p; obj ← gets (object_at (normalize_path p)); pure (is_some obj)

-- The fields of `BasicObjectInfo` that the memory backend sets; it sets no hash and no metadata.
pub record ObjectInfo : Type 0 where
  pub path : Bytes
  pub size : ℕ
  pub mod_time : ℕ
  pub is_dir : Bool
  pub content_type : Bytes

unfoldable pub stat : Context → Bytes → Action Backend ObjectInfo
stat ctx p = do
  guards ctx p
  obj ← found (← gets (object_at (normalize_path p))) not_found
  pure (record {
    path = normalize_path p;
    size = if obj.is_dir then 0 else length obj.data_bytes;
    mod_time = obj.mod_time;
    is_dir = obj.is_dir;
    content_type = obj.content_type;
  })

total_size : Dict Bytes Object → ℕ
total_size [] = 0
total_size ((p, obj) ∷ d) = length obj.data_bytes + total_size d

-- `Size`
unfoldable pub size : Backend → ℕ
unfolding total_size
size b = total_size (entries b)

unfoldable pub file_count : Dict Bytes Object → ℕ
file_count [] = 0
file_count ((p, obj) ∷ d) = let rest = file_count d in if obj.is_dir then rest else suc rest

-- `Count`
unfoldable pub count : Backend → ℕ
unfolding file_count
count b = file_count (entries b)
