-- ===== src/Sftp/Client.antt =====
-- What the SFTP backend asks of its client, over a world `W` that holds the remote files.
use omnistorage.Base.{Bytes, Bool, List, Option, Error}
use omnistorage.Base.Int.{ℤ}
use omnistorage.Base.Action.{Action}
use omnistorage.File.System.{FileStat}

-- An entry of `ReadDir`.
pub record Entry : Type 0 where
  pub name : Bytes
  pub is_dir : Bool

pub record Client (W : Type 0) : Type 1 where
  pub Handle : Type 0
  pub stat : Bytes → Action W FileStat
  pub open_file : Bytes → Action W Handle
  pub create : Bytes → Action W Handle
  pub seek : Handle → ℤ → Action W (Unit {0})
  -- `io.Copy(dst, src)`, the destination first.
  pub copy_data : Handle → Handle → Action W (Unit {0})
  pub close_file : Handle → Action W (Unit {0})
  pub mkdir_all : Bytes → Action W (Unit {0})
  pub remove : Bytes → Action W (Unit {0})
  pub remove_directory : Bytes → Action W (Unit {0})
  pub rename : Bytes → Bytes → Action W (Unit {0})
  pub read_dir : Bytes → Action W (List Entry)
  -- Both clients, the one of SFTP and the one of SSH, are closed.
  pub close_clients : Action W (Unit {0})
  pub is_not_exist : Error → Bool
  pub is_permission : Error → Bool
  -- What `errors.As` finds inside a `*fs.PathError`.
  pub path_error : Error → Option Error
