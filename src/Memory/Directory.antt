-- ===== src/Memory/Directory.antt =====
-- `Mkdir` and `Rmdir`. Each is a check, which takes the lock for itself, and a locked part; a
-- `Close` of another goroutine can come between the two.
use omnistorage.Base.{
  ℕ, suc, Bytes, bytes_eq, Bool, true, false, ◌||◌, not, List, [], ◌∷◌, ◌++◌, codes,
}
use omnistorage.Base.{none, some, take, message, not_found, Context, ok}
use omnistorage.Base.Action.{Action, ◌>>=◌, ◌>>◌, pure, gets, found, fail_when}
use omnistorage.Base.Dict.{Dict}
use omnistorage.Paths.Text.{slash, split, join, has_prefix}
use omnistorage.Paths.Normal.{normalize_path}
use omnistorage.Memory.State.{Object, Backend, entries, object_at, store, drop_object, guards}

abbrev pub directory : ℕ → Object
directory now = record { data_bytes = []; content_type = []; mod_time = now; is_dir = true }

-- `b.objects[dirPath]` unless it is there already.
unfoldable pub make_dir : ℕ → Bytes → Action Backend (Unit {0})
make_dir now p b = elim (object_at p b) [ some _ ↦ (ok tt, b) | none ↦ store p (directory now) b ]

-- `for i := range parts`, from the index `i` on.
unfoldable pub mkdir_loop : ℕ → List Bytes → List Bytes → ℕ → Action Backend (Unit {0})
mkdir_loop now parts [] i = pure tt
mkdir_loop now parts (_ ∷ left) i =
    make_dir now (join slash (take (suc i) parts)) >> mkdir_loop now parts left (suc i)

-- The part of `Mkdir` under `b.mu.Lock`.
unfoldable pub mkdir_locked : ℕ → Bytes → Action Backend (Unit {0})
unfolding mkdir_loop
mkdir_locked now p = let parts = split slash p in mkdir_loop now parts parts 0

unfoldable pub mkdir : Context → Bytes → ℕ → Action Backend (Unit {0})
mkdir ctx p now = guards ctx p >> mkdir_locked now (normalize_path p)

-- Whether some path begins with the prefix.
unfoldable pub any_under : Bytes → Dict Bytes Object → Bool
any_under prefix [] = false
any_under prefix ((p, obj) ∷ d) = has_prefix p prefix || any_under prefix d

unfoldable pub rmdir : Context → Bytes → Action Backend (Unit {0})
rmdir ctx p = do
  guards ctx p
  obj ← found (← gets (object_at (normalize_path p))) not_found
  fail_when (not obj.is_dir) (message "not a directory" p)
  objects ← gets entries
  fail_when (any_under (normalize_path p ++ codes "/") objects) (message "directory not empty" p)
  drop_object (normalize_path p)
