-- ===== src/Transfer.antt =====
-- copy.go and move.go: copies and moves between two backends, which may be the same.
-- That a reader is closed at the end is left out: what its `Close` returns is dropped.
pub mod Laws
pub mod Hashed
pub mod HashedLaws
use omnistorage.Base.{
  Bytes, Bool, true, false, List, [], ◌∷◌, Option, none, some, Error, not_supported, Result, ok,
  err, panic, if◌then◌else◌,
}
use omnistorage.Base.Action.{Action, ◌>>=◌, ◌>>◌, pure, fail}
use omnistorage.Options.{WriterOption}
use omnistorage.Backends.{Stream, Extended, Backend}

-- `err != nil && err == ErrNotSupported`
abbrev pub is_unsupported : Result (Unit {0}) → Bool
is_unsupported (err not_supported) = true
is_unsupported _ = false

module _ {W : Type 0} where
  -- `io.Copy(w, r)`
  unfoldable pub io_copy :
      (D : Backend W) → D.Writer → List Bytes → Option Error → Action W (Unit {0})
  io_copy D w [] none = pure tt
  io_copy D w [] (some e) = fail e
  io_copy D w (chunk ∷ chunks) failure = D.write w chunk >> io_copy D w chunks failure

  -- The writer is closed in any case, and an error of the copy goes first.
  unfoldable pub copy_and_close : (D : Backend W) → D.Writer → Stream → Action W (Unit {0})
  copy_and_close D w stream s =
      let (r, s') = io_copy D w stream.chunks stream.failure s in
      elim r [ ok _ ↦ D.close w s' | err e ↦ (err e, (D.close w s').1) | panic ↦ (panic, s') ]

  unfoldable pub copy_path :
      Backend W → Bytes → Backend W → Bytes → List WriterOption → Action W (Unit {0})
  copy_path S src D dst opts = do
    stream ← S.new_reader src
    w ← D.new_writer dst opts
    copy_and_close D w stream

  unfoldable pub move_path :
      Backend W → Bytes → Backend W → Bytes → List WriterOption → Action W (Unit {0})
  move_path S src D dst opts = copy_path S src D dst opts >> S.delete src

  -- A call of the backend's own operation, and the other way if it is not supported.
  abbrev pub or_else : Action W (Unit {0}) → Action W (Unit {0}) → Action W (Unit {0})
  or_else server client s =
      let (r, s') = server s in if is_unsupported r then client s' else (r, s')

  -- `same` is `srcBackend == dstBackend`.
  unfoldable pub smart_copy :
      Bool → Backend W → Bytes → Backend W → Bytes → List WriterOption → Action W (Unit {0})
  smart_copy same S src D dst opts =
      let client = copy_path S src D dst opts in
      elim S.extended [
        | none ↦ client
        | some x ↦
            if same
            then (if x.features.copy then or_else (x.copy src dst) client else client)
            else client
      ]

  unfoldable pub smart_move :
      Bool → Backend W → Bytes → Backend W → Bytes → List WriterOption → Action W (Unit {0})
  smart_move same S src D dst opts =
      let client = move_path S src D dst opts in
      elim S.extended [
        | none ↦ client
        | some x ↦
            if same
            then (if x.features.move then or_else (x.move src dst) client else client)
            else client
      ]
