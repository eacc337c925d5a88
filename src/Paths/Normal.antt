-- ===== src/Paths/Normal.antt =====
-- `validatePath` and `normalizePath` of backend/memory/backend.go.
use omnistorage.Base.{Bytes, Bool, ◌||◌, [], ◌==◌, bytes_eq, codes, if◌then◌else◌, Result, ok, err}
use omnistorage.Base.{invalid_path}
use omnistorage.Paths.Text.{has_prefix, trim_prefix, contains_text}
use omnistorage.Paths.Clean.{dot, dotdot, clean}

-- A cleaned path that leaves the root.
unfoldable pub escapes : Bytes → Bool
escapes cleaned = has_prefix cleaned dotdot || contains_text cleaned (codes "/../")

unfoldable pub validate_path : Bytes → Result (Unit {0})
unfolding escapes
validate_path p =
    if p == [] then err invalid_path else if escapes (clean p) then err invalid_path else ok tt

unfoldable pub normalize_path : Bytes → Bytes
normalize_path p =
    if p == []
    then []
    else let trimmed = trim_prefix (clean p) (codes "/") in if trimmed == dot then [] else trimmed
