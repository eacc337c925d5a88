-- ===== src/Multi/Build.antt =====
-- The constructors of multi/writer.go.
use omnistorage.Base.{ℕ, List, [], ◌∷◌, Option, none, some, message, Result, ok, err, panic, length}
use omnistorage.Multi.{WriteMode, write_all, Opener}

-- `Writer`: the backends, each by its `NewWriter`.
pub record Writer (W : Type 0) : Type 0 where
  pub backends : List (Opener W)
  pub mode : WriteMode

-- `Option`
abbrev pub MultiOption : Type 0 → Type 0
MultiOption W = Writer W → Writer W

module _ {W : Type 0} where
  abbrev pub with_mode : WriteMode → MultiOption W
  with_mode mode w = record w { mode = mode }

  -- The backends that are not nil.
  unfoldable pub valid_backends : List (Option (Opener W)) → List (Opener W)
  valid_backends [] = []
  valid_backends (none ∷ backends) = valid_backends backends
  valid_backends (some b ∷ backends) = b ∷ valid_backends backends

  unfoldable pub new_writer : List (Option (Opener W)) → Result (Writer W)
  unfolding valid_backends
  new_writer [] = err (message "at least one backend is required" [])
  new_writer (b ∷ backends) = elim (valid_backends (b ∷ backends)) [
    | [] ↦ err (message "no valid backends provided" [])
    | v ∷ valid ↦ ok (record { backends = v ∷ valid; mode = write_all })
  ]

  unfoldable pub apply_all : List (MultiOption W) → MultiOption W
  apply_all [] w = w
  apply_all (opt ∷ opts) w = apply_all opts (opt w)

  unfoldable pub new_writer_with_options :
      List (Option (Opener W)) → List (MultiOption W) → Result (Writer W)
  unfolding new_writer apply_all
  new_writer_with_options backends opts = elim (new_writer backends) [
    | ok w ↦ ok (apply_all opts w)
    | err e ↦ err e
    | panic ↦ panic
  ]

  unfoldable pub backend_count : Writer W → ℕ
  backend_count w = length w.backends
