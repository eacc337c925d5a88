-- ===== src/File/Refused.antt =====
-- What the file backend does with a call that it does not admit.
use omnistorage.Base.{Bytes, ◌≡◌, Error, err, Context, arith}
use omnistorage.Base.Action.{Action}
use omnistorage.Options.{ReaderConfig}
use omnistorage.File.System.{System}
use omnistorage.File.Backend.{Backend, guards, new_writer, new_reader, exists, delete}
use omnistorage.File.Extended.{stat, mkdir, rmdir, copy, move}

module _ {W : Type 0} (S : System W) (b : Backend) (w : W) (e : Error) where
  -- The call gives the error, and asks nothing of the operating system.
  abbrev pub Refused : {A : Type 0} → Action W A → Type 0
  Refused m = m w ≡ (err e, w)

  -- If the backend is closed, the context done or the path not valid, in this order, then each
  -- method with a path, the source where there are two, fails with what the first of these tests
  -- gives, and leaves the file system as it is.
  pub guards_first :
      (ctx : Context) (p dst : Bytes) (config : ReaderConfig)
      → (guards S b ctx p w).0 ≡ err e
      → Refused (new_writer S b ctx p)
        × Refused (new_reader S b ctx p config)
        × Refused (exists S b ctx p)
        × Refused (delete S b ctx p)
        × Refused (stat S b ctx p)
        × Refused (mkdir S b ctx p)
        × Refused (rmdir S b ctx p)
        × Refused (copy S b ctx p dst)
        × Refused (move S b ctx p dst)
  unfolding new_writer new_reader exists delete stat mkdir rmdir copy move
  guards_first ctx p dst config h = (
    ground arith,
    ground arith,
    ground arith,
    ground arith,
    ground arith,
    ground arith,
    ground arith,
    ground arith,
    ground arith,
  )
