-- ===== src/File/System.antt =====
-- What the file backend asks of the package os and of the data base of content types, over a world
-- `W` that holds the file system.
use omnistorage.Base.{ℕ, Bytes, Bool, List, Option, Error}
use omnistorage.Base.Int.{ℤ}
use omnistorage.Base.Action.{Action}

-- `os.FileInfo`
pub record FileStat : Type 0 where
  pub size : ℤ
  pub mod_time : ℕ
  pub is_dir : Bool

-- What `filepath.Walk` shows to its callback.
pub record Visit : Type 0 where
  pub path : Bytes
  pub is_dir : Bool
  pub failure : Option Error

pub record System (W : Type 0) : Type 1 where
  pub Handle : Type 0
  pub stat : Bytes → Action W FileStat
  pub open_file : Bytes → Action W Handle
  pub seek : Handle → ℤ → Action W (Unit {0})
  -- `os.OpenFile` with `O_WRONLY`, `O_CREATE` and `O_TRUNC`.
  pub create : Bytes → ℕ → Action W Handle
  -- `io.Copy(dst, src)`, the destination first.
  pub copy_data : Handle → Handle → Action W (Unit {0})
  pub close : Handle → Action W (Unit {0})
  pub mkdir_all : Bytes → ℕ → Action W (Unit {0})
  pub remove : Bytes → Action W (Unit {0})
  pub rename : Bytes → Bytes → Action W (Unit {0})
  -- The visits of a walk, while the callback returns nil.
  pub walk : Bytes → W → List Visit × W
  pub is_not_exist : Error → Bool
  pub is_permission : Error → Bool
  -- `mime.TypeByExtension`
  pub type_by_extension : Bytes → Bytes
