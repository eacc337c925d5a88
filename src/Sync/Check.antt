-- ===== src/Sync/Check.antt =====
-- sync/check.go and sync/verify.go: what is the same on both sides.
use omnistorage.Base.{
  ℕ, suc, ◌-◌, Bytes, bytes_eq, nat_eq, Bool, true, false, not, ◌&&◌, List, [], ◌∷◌, ◌++◌, codes,
  Option, none, some, Error, ok, err, panic, if◌then◌else◌, ◌==◌, ltb,
}
use omnistorage.Base.Int.{ℤ, pos, negsuc, sub_ℕ, ltb_ℤ, int_eq}
use omnistorage.Base.Action.{Action, ◌>>=◌, pure}
use omnistorage.Base.Dict
use omnistorage.Base.Dict.{Dict}
use omnistorage.Paths.Clean.{path_join}
use omnistorage.Backends.{Backend}
use omnistorage.Sync.Options.{Options, FileInfo, FileError, is_known}
use omnistorage.Sync.Listing.{Environment, list_files}
use omnistorage.Sync.Content.{compare_content}

pub record CheckResult : Type 0 where
  pub matching : List Bytes
  pub differ : List Bytes
  pub src_only : List Bytes
  pub dst_only : List Bytes
  pub errors : List FileError

-- `int64`: the least value is -(2 ^ 63), which is its own negation.
abbrev pub int64_bound : ℕ
int64_bound = 9223372036854775808

-- `t.Sub(u)`, which stops at the bounds of a `Duration`.
unfoldable pub duration : ℕ → ℕ → ℤ
duration t u = elim (sub_ℕ t u) [
  | pos n ↦ if ltb n int64_bound then pos n else pos (int64_bound - 1)
  | negsuc n ↦ if ltb n int64_bound then negsuc n else negsuc (int64_bound - 1)
]

abbrev negate : ℤ → ℤ
negate (pos n) = sub_ℕ 0 n
negate (negsuc n) = if ltb n (int64_bound - 1) then pos (suc n) else negsuc n

abbrev absolute : ℤ → ℤ
absolute d = if ltb_ℤ d (pos 0) then negate d else d

-- `timeDiff > 1e9`
unfoldable pub times_differ : ℕ → ℕ → Bool
unfolding duration
times_differ t u = ltb_ℤ (pos 1000000000) (absolute (duration t u))

module _ {W : Type 0} (opts : Options) (S D : Backend W) (src dst : Bytes) where
  unfoldable pub files_match : FileInfo → FileInfo → Action W Bool
  files_match f g =
      if not opts.ignore_size && not (f.size == g.size)
      then pure false
      else if opts.checksum && (is_known f.hash && is_known g.hash)
      then pure (f.hash == g.hash)
      else if not opts.ignore_time && (not opts.checksum && times_differ f.mod_time g.mod_time)
      then pure false
      else if opts.checksum
      then compare_content S D (path_join src f.path) (path_join dst g.path)
      else pure true

-- What the body of the loop finds out about a source file.
pub data Verdict : Type 0 where
  same different only_in_src : Verdict
  not_compared : Error → Verdict

unfoldable pub add_verdict : FileInfo → Verdict → CheckResult → CheckResult
add_verdict f same r = record r { matching = f.path ∷ r.matching }
add_verdict f different r = record r { differ = f.path ∷ r.differ }
add_verdict f only_in_src r = record r { src_only = f.path ∷ r.src_only }
add_verdict f (not_compared e) r = record r {
  errors = record { path = f.path; op = codes "compare"; error = e } ∷ r.errors;
}

-- The keys in the order of `range`.
unfoldable pub keys : Dict Bytes FileInfo → List Bytes
keys [] = []
keys ((p, _) ∷ m) = p ∷ keys m

-- `dstMap`, without directories.
unfoldable pub plain_map : List FileInfo → Dict Bytes FileInfo → Dict Bytes FileInfo
plain_map [] m = m
plain_map (f ∷ fs) m = elim f.is_dir [
  | true ↦ plain_map fs m
  | false ↦ plain_map fs (Dict.insert f.path f m)
]

module _ {W : Type 0} (opts : Options) (S D : Backend W) (src dst : Bytes) where
  unfoldable pub check_file : FileInfo → Option FileInfo → Action W Verdict
  check_file f none w = (ok only_in_src, w)
  check_file f (some g) w =
      let (r, w') = files_match opts S D src dst f g w in
      elim r [
        | ok b ↦ (ok (if b then same else different), w')
        | err e ↦ (ok (not_compared e), w')
        | panic ↦ (panic, w')
      ]

  -- The loop over the source files, and what remains of the map.
  unfoldable pub check_loop : List FileInfo → Dict Bytes FileInfo → Action W CheckResult
  check_loop [] m =
      pure (record { matching = []; differ = []; src_only = []; dst_only = keys m; errors = [] })
  check_loop (f ∷ fs) m = elim f.is_dir [
    | true ↦ check_loop fs m
    | false ↦ check_file f (Dict.lookup f.path m) >>= λ v.
        check_loop fs (Dict.erase f.path m) >>= λ r. pure (add_verdict f v r)
  ]

  -- `Check`
  unfoldable pub check : Environment → Action W CheckResult
  check env = do
    src_files ← list_files env opts S src
    dst_files ← list_files env opts D dst
    check_loop src_files (plain_map dst_files [])

abbrev is_empty : List Bytes → Bool
is_empty [] = true
is_empty (_ ∷ _) = false

-- `InSync`
unfoldable pub in_sync : CheckResult → Bool
in_sync r = is_empty r.differ && (is_empty r.src_only && is_empty r.dst_only)

module _ {W : Type 0} where
  unfoldable pub verify :
      Environment → Options → Backend W → Backend W → Bytes → Bytes → Action W Bool
  verify env opts S D src dst = check opts S D src dst env >>= λ r. pure (in_sync r)

pub data DiffStatus : Type 0 where
  new_file modified_file deleted_file : DiffStatus

abbrev entries_of : DiffStatus → List Bytes → List (Bytes × DiffStatus)
entries_of status [] = []
entries_of status (p ∷ ps) = (p, status) ∷ entries_of status ps

-- The entries of `Diff`.
unfoldable pub diff_entries : CheckResult → List (Bytes × DiffStatus)
diff_entries r =
    entries_of new_file r.src_only
    ++ (entries_of modified_file r.differ ++ entries_of deleted_file r.dst_only)
