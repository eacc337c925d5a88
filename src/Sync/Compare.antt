-- ===== src/Sync/Compare.antt =====
-- sync/sync.go, the part of `Sync` under "Compare and determine actions": which files are to be
-- copied, and which to be deleted.
use omnistorage.Base.{
  ℕ, suc, Bytes, bytes_eq, Bool, true, false, not, ◌&&◌, List, [], ◌∷◌, Option, none, some,
  if◌then◌else◌,
}
use omnistorage.Base.Int.{ℤ, ◌+ℤ◌}
use omnistorage.Base.Dict
use omnistorage.Base.Dict.{Dict}
use omnistorage.Sync.Options.{Options, FileInfo, needs_update}

pub record CopyAction : Type 0 where
  pub file : FileInfo
  pub is_update : Bool

-- `left` is what the loop leaves of `dstMap`.
pub record Plan : Type 0 where
  pub to_copy : List CopyAction
  pub skipped : ℕ
  pub left : Dict Bytes FileInfo

-- `dstMap`: the last file of a path stays.
unfoldable pub file_map : List FileInfo → Dict Bytes FileInfo → Dict Bytes FileInfo
file_map [] m = m
file_map (f ∷ fs) m = file_map fs (Dict.insert f.path f m)

abbrev add_copy : FileInfo → Bool → Plan → Plan
add_copy f is_update p = record p {
  to_copy = record { file = f; is_update = is_update } ∷ p.to_copy;
}

abbrev add_skip : Plan → Plan
add_skip p = record p { skipped = suc p.skipped }

module _ (times_equal : ℕ → ℕ → Bool) (opts : Options) where
  -- What the loop's body does with a source file that is no directory, given what `dstMap` has
  -- at its path.
  unfoldable pub decide : FileInfo → Option FileInfo → Plan → Plan
  decide f none p = add_copy f false p
  decide f (some d) p =
      if not d.is_dir && needs_update times_equal f d opts
      then (if not opts.ignore_existing then add_copy f true p else add_skip p)
      else add_skip p

  unfoldable pub compare_files : List FileInfo → Dict Bytes FileInfo → Plan
  compare_files [] m = record { to_copy = []; skipped = 0; left = m }
  compare_files (f ∷ fs) m =
      let without = compare_files fs m in
      let rest = compare_files fs (Dict.erase f.path m) in
      if f.is_dir then without else decide f (Dict.lookup f.path m) rest

-- `for p, f := range dstMap`
unfoldable pub plain_paths : Dict Bytes FileInfo → List Bytes
plain_paths [] = []
plain_paths ((p, f) ∷ m) = let rest = plain_paths m in if f.is_dir then rest else p ∷ rest

-- `toDelete`
unfoldable pub to_delete : Options → Plan → List Bytes
unfolding plain_paths
to_delete opts p = if opts.delete_extra then plain_paths p.left else []

-- `totalBytes`
unfoldable pub total_bytes : List CopyAction → ℤ → ℤ
total_bytes [] n = n
total_bytes (a ∷ actions) n = total_bytes actions (n +ℤ a.file.size)
