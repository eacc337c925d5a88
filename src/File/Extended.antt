-- ===== src/File/Extended.antt =====
-- backend/file/extended.go. A file whose closing is deferred is closed on every way out.
use omnistorage.Base.{
  ℕ, Bytes, bytes_eq, Bool, true, false, [], codes, Error, permission_denied, message, wrapped,
  Context, ok, err, panic, if◌then◌else◌, ◌==◌,
}
use omnistorage.Base.Int.{ℤ}
use omnistorage.Base.Action.{Action, ◌>>=◌, ◌>>◌, pure, lift, fail_when}
use omnistorage.Features.{Features}
use omnistorage.File.System.{System}
use omnistorage.File.Place.{validate_path, ext}
use omnistorage.File.Backend.{
  Backend, guards, full, os_error, or_os_error, or_wrapped, make_parents,
}

-- `BasicObjectInfo`; the file backend keeps no hashes.
pub record FileObject : Type 0 where
  pub path : Bytes
  pub size : ℤ
  pub mod_time : ℕ
  pub is_dir : Bool
  pub content_type : Bytes

-- `Features`
abbrev pub features : Features
features = record {
  copy = true;
  move = true;
  mkdir = true;
  rmdir = true;
  stat = true;
  hashes = [];
  can_stream = true;
  server_side_encryption = false;
  versioning = false;
  range_read = true;
  list_prefix = true;
  set_mod_time = false;
  custom_metadata = false;
}

module _ {W : Type 0} (S : System W) (b : Backend) where
  -- A permission that is missing, and other errors.
  unfoldable pub refusal : Bytes → Error → Error
  refusal what e = if S.is_permission e then permission_denied else wrapped e what

  abbrev or_refusal : Bytes → Action W (Unit {0}) → Action W (Unit {0})
  or_refusal what m w =
      let (r, w') = m w in
      elim r [ ok _ ↦ (ok tt, w') | err e ↦ (err (refusal what e), w') | panic ↦ (panic, w') ]

  abbrev content_type_of : Bytes → Bytes
  content_type_of p = if ext p == [] then [] else S.type_by_extension (ext p)

  unfoldable pub stat : Context → Bytes → Action W FileObject
  unfolding os_error
  stat ctx p = do
    guards S b ctx p
    info ← or_os_error S b (codes "stat") (S.stat (full S b p))
    pure (record {
      path = p;
      size = info.size;
      mod_time = info.mod_time;
      is_dir = info.is_dir;
      content_type = if info.is_dir then [] else content_type_of p;
    })

  unfoldable pub mkdir : Context → Bytes → Action W (Unit {0})
  unfolding refusal
  mkdir ctx p =
      guards S b ctx p
      >> or_refusal (codes "mkdir") (S.mkdir_all (full S b p) b.config.dir_permissions)

  unfoldable pub rmdir : Context → Bytes → Action W (Unit {0})
  unfolding refusal os_error
  rmdir ctx p = do
    guards S b ctx p
    info ← or_os_error S b (codes "stat") (S.stat (full S b p))
    fail_when (if info.is_dir then false else true) (message "rmdir: not a directory" p)
    or_refusal (codes "rmdir") (S.remove (full S b p))

  -- `defer f.Close()`
  abbrev closing : S.Handle → Action W (Unit {0}) → Action W (Unit {0})
  closing f m w = let (r, w') = m w in (r, (S.close f w').1)

  -- `copyFile`: the destination is closed twice, and its first error counts.
  unfoldable pub copy_file : Bytes → Bytes → Action W (Unit {0})
  copy_file src dst = or_wrapped S b (codes "open source") (S.open_file src) >>= λ from.
      closing from (
        or_wrapped S b (codes "create destination") (S.create dst b.config.file_permissions)
        >>= λ to.
            closing to (or_wrapped S b (codes "copy data") (S.copy_data to from) >> S.close to))

  unfoldable pub copy : Context → Bytes → Bytes → Action W (Unit {0})
  unfolding copy_file os_error
  copy ctx src dst = do
    guards S b ctx src
    lift (validate_path dst)
    info ← or_os_error S b (codes "stat") (S.stat (full S b src))
    fail_when info.is_dir (message "copy: source is a directory" src)
    make_parents S b (full S b dst)
    copy_file (full S b src) (full S b dst)

  -- The end of `Move`: where the file cannot be renamed it is copied and removed.
  unfoldable pub rename_or_copy : Bytes → Bytes → Action W (Unit {0})
  unfolding copy_file
  rename_or_copy src dst w =
      let (r, w') = S.rename src dst w in
      elim r [
        | ok _ ↦ (ok tt, w')
        | err _ ↦ (copy_file src dst >> S.remove src) w'
        | panic ↦ (panic, w')
      ]

  unfoldable pub move : Context → Bytes → Bytes → Action W (Unit {0})
  unfolding rename_or_copy os_error
  move ctx src dst = do
    guards S b ctx src
    lift (validate_path dst)
    or_os_error S b (codes "stat") (S.stat (full S b src))
    make_parents S b (full S b dst)
    rename_or_copy (full S b src) (full S b dst)
