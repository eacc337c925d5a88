-- ===== src/Sync/Bisync/Options.antt =====
-- sync/bisync.go: options and results of `Bisync`. `Progress` and the logger only observe a run, a
-- limit of the bandwidth only slows it down, and the duration is left out.
use omnistorage.Base.{
  ℕ, ◌+◌, Bytes, Bool, true, false, List, [], ◌∷◌, codes, Option, none, Error, if◌then◌else◌,
  bytes_eq, ◌==◌,
}
use omnistorage.Base.Int.{ℤ, pos, ltb_ℤ}
use omnistorage.Retry.{RetryConfig}
use omnistorage.Sync.Filter.{Rule}
use omnistorage.Sync.Options.{MetadataOptions, Options, FileInfo, FileError, default_options}
use omnistorage.Sync.Conflict.{ConflictStrategy, newer_wins}

pub record BisyncOptions : Type 0 where
  pub conflict_strategy : ConflictStrategy
  pub conflict_suffix : Bytes
  pub dry_run : Bool
  pub checksum : Bool
  pub delete_missing : Bool
  pub max_errors : ℤ
  pub concurrency : ℤ
  pub filter : Option (List Rule)
  pub retry : Option RetryConfig
  pub preserve_metadata : Option MetadataOptions

-- `DefaultBisyncOptions`
abbrev pub default_bisync_options : BisyncOptions
default_bisync_options = record {
  conflict_strategy = newer_wins;
  conflict_suffix = codes ".conflict";
  dry_run = false;
  checksum = false;
  delete_missing = false;
  max_errors = pos 0;
  concurrency = pos 4;
  filter = none;
  retry = none;
  preserve_metadata = none;
}

-- "Set defaults"
unfoldable pub set_defaults : BisyncOptions → BisyncOptions
set_defaults o = record o {
  concurrency = if ltb_ℤ (pos 0) o.concurrency then o.concurrency else pos 4;
  conflict_suffix = if o.conflict_suffix == [] then codes ".conflict" else o.conflict_suffix;
}

-- `syncOpts`, for the listings and the comparison.
unfoldable pub scan_options : BisyncOptions → Options
scan_options o = record default_options {
  checksum = o.checksum;
  filter = o.filter;
  concurrency = o.concurrency;
}

-- The options of `sctx`, for the copies.
unfoldable pub copy_options : BisyncOptions → Options
copy_options o = record default_options {
  dry_run = o.dry_run;
  concurrency = pos 0;
  retry = o.retry;
  preserve_metadata = o.preserve_metadata;
}

pub record Conflict : Type 0 where
  pub path : Bytes
  pub path1_info : FileInfo
  pub path2_info : FileInfo
  pub resolution : Bytes
  pub error : Option Error

pub record BisyncResult : Type 0 where
  pub copied_to_path2 : ℕ
  pub copied_to_path1 : ℕ
  pub updated_in_path2 : ℕ
  pub updated_in_path1 : ℕ
  pub deleted_from_path1 : ℕ
  pub deleted_from_path2 : ℕ
  pub conflicts : List Conflict
  pub skipped : ℕ
  pub errors : List FileError
  pub bytes_transferred : ℤ
  pub dry_run : Bool

-- `BisyncResult.Success`
unfoldable pub success : BisyncResult → Bool
success r = elim r.errors [ [] ↦ true | _ ∷ _ ↦ false ]

-- `TotalCopied`, `TotalUpdated` and `TotalDeleted`
abbrev pub total_copied : BisyncResult → ℕ
total_copied r = r.copied_to_path1 + r.copied_to_path2

abbrev pub total_updated : BisyncResult → ℕ
total_updated r = r.updated_in_path1 + r.updated_in_path2

abbrev pub total_deleted : BisyncResult → ℕ
total_deleted r = r.deleted_from_path1 + r.deleted_from_path2
