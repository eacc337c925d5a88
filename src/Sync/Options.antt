-- ===== src/Sync/Options.antt =====
-- sync/options.go: options, file records, results and `NeedsUpdate`.
-- The callback `Progress` and the logger only observe a run and are left out.
use omnistorage.Base.{
  ℕ, Bytes, bytes_eq, nat_eq, Bool, true, false, not, ◌&&◌, List, [], ◌∷◌, Option, none, ◌==◌,
  Error, if◌then◌else◌, ◌≡◌, arith,
}
use omnistorage.Base.Int.{ℤ, pos, int_eq}
use omnistorage.Retry.{RetryConfig}
use omnistorage.Sync.Filter.{Rule}

pub record MetadataOptions : Type 0 where
  pub content_type : Bool
  pub mod_time : Bool
  pub custom_metadata : Bool

-- `filter`, `retry` and `preserve_metadata` are `none` where the pointer is nil. The bandwidth is
-- left out: a reader with a limit delivers the same bytes later.
pub record Options : Type 0 where
  pub delete_extra : Bool
  pub delete_excluded : Bool
  pub dry_run : Bool
  pub checksum : Bool
  pub ignore_existing : Bool
  pub ignore_size : Bool
  pub ignore_time : Bool
  pub size_only : Bool
  pub max_errors : ℤ
  pub concurrency : ℤ
  pub filter : Option (List Rule)
  pub retry : Option RetryConfig
  pub preserve_metadata : Option MetadataOptions

-- `DefaultOptions`
abbrev pub default_options : Options
default_options = record {
  delete_extra = false;
  delete_excluded = false;
  dry_run = false;
  checksum = false;
  ignore_existing = false;
  ignore_size = false;
  ignore_time = false;
  size_only = false;
  max_errors = pos 0;
  concurrency = pos 4;
  filter = none;
  retry = none;
  preserve_metadata = none;
}

pub record FileInfo : Type 0 where
  pub path : Bytes
  pub size : ℤ
  pub mod_time : ℕ
  pub hash : Bytes
  pub is_dir : Bool

pub record FileError : Type 0 where
  pub path : Bytes
  pub op : Bytes
  pub error : Error

pub record SyncResult : Type 0 where
  pub copied : ℕ
  pub updated : ℕ
  pub deleted : ℕ
  pub skipped : ℕ
  pub errors : List FileError
  pub bytes_transferred : ℤ
  pub dry_run : Bool

-- `Result.Success`
unfoldable pub success : SyncResult → Bool
success r = elim r.errors [ [] ↦ true | _ ∷ _ ↦ false ]

-- `hash != ""`
abbrev pub is_known : Bytes → Bool
is_known [] = false
is_known (_ ∷ _) = true

-- `tsync.Equal` of github.com/grokify/oscompat is a parameter: whether two times are the same
-- within the precision of file systems.
module _ (times_equal : ℕ → ℕ → Bool) where
  unfoldable pub needs_update : FileInfo → FileInfo → Options → Bool
  needs_update src dst opts =
      if opts.size_only
      then not (src.size == dst.size)
      else if opts.checksum && (is_known src.hash && is_known dst.hash)
      then not (src.hash == dst.hash)
      else if not opts.ignore_size && not (src.size == dst.size)
      then true
      else not opts.ignore_time && not (times_equal src.mod_time dst.mod_time)

  -- Where the comparison of times is symmetric, so is the need of an update: the second test of
  -- `Bisync` never finds more than the first.
  pub needs_update_comm :
      (src dst : FileInfo) (opts : Options)
      → ((a b : ℕ) → times_equal a b ≡ times_equal b a)
      → needs_update src dst opts ≡ needs_update dst src opts
  unfolding needs_update
  needs_update_comm src dst opts h = ground (arith, h src.mod_time dst.mod_time)
