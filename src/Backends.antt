-- ===== src/Backends.antt =====
-- interfaces.go and extended.go: what every backend offers, over a world `W` that holds the state
-- of all backends of a run, so that two of them may share it. A writer is a handle; what has been
-- written so far is part of the world. The reader of a path is what it will deliver.

use omnistorage.Base.{ℕ, Bytes, Bool, List, Option, Error}
use omnistorage.Base.Int.{ℤ}
use omnistorage.Base.Action.{Action}
use omnistorage.Base.Dict.{Dict}
use omnistorage.Features.{HashType, Features}
use omnistorage.Options.{WriterOption}

-- The chunks that a reader delivers, and the error other than `io.EOF` that ends them, if any.
pub record Stream : Type 0 where
  pub chunks : List Bytes
  pub failure : Option Error

-- object_info.go
pub record ObjectInfo : Type 0 where
  pub path : Bytes
  pub size : ℤ
  pub mod_time : ℕ
  pub is_dir : Bool
  pub content_type : Bytes
  pub hash : HashType → Bytes
  pub metadata : Dict Bytes Bytes

-- `ExtendedBackend`, beyond `Backend`.
pub record Extended (W : Type 0) : Type 0 where
  pub stat : Bytes → Action W ObjectInfo
  pub mkdir : Bytes → Action W (Unit {0})
  pub rmdir : Bytes → Action W (Unit {0})
  pub copy : Bytes → Bytes → Action W (Unit {0})
  pub move : Bytes → Bytes → Action W (Unit {0})
  pub features : Features

-- `extended` is what `AsExtended` gives.
pub record Backend (W : Type 0) : Type 1 where
  pub Writer : Type 0
  pub list : Bytes → Action W (List Bytes)
  pub exists : Bytes → Action W Bool
  pub delete : Bytes → Action W (Unit {0})
  pub new_reader : Bytes → Action W Stream
  pub new_writer : Bytes → List WriterOption → Action W Writer
  pub write : Writer → Bytes → Action W (Unit {0})
  pub close : Writer → Action W (Unit {0})
  pub extended : Option (Extended W)
