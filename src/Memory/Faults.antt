-- ===== src/Memory/Faults.antt =====
-- Where a method does not do what its contract says.
use omnistorage.Base.{ℕ, Bytes, bytes_eq, ◌≡◌, refl, ◌≢◌, List, [], ◌∷◌}
use omnistorage.Base.{none, ok, panic, Context, ==-refl, ◌∙◌}
use omnistorage.Base.Dict
use omnistorage.Paths.Text.{slash, split, split-ne-nil}
use omnistorage.Paths.Normal.{normalize_path}
use omnistorage.Memory.State.{Backend, object_at, store}
use omnistorage.Memory.Directory.{make_dir, mkdir_loop, mkdir_locked}
use omnistorage.Memory.Transfer.{move, close}
use omnistorage.Memory.Transfers.{move_effect}

mkdir_loop-closed :
    (now : ℕ) (w : Bytes) (ws : List Bytes) (i : ℕ) (b : Backend)
    → (mkdir_loop now (w ∷ ws) (w ∷ ws) i (close b).1).0 ≡ panic
unfolding mkdir_loop make_dir store close Dict.lookup
mkdir_loop-closed now w ws i b = refl

-- When `Close` runs between the check and the locked part of `Mkdir`, the locked part assigns
-- into the nil map and panics, whatever the path.
pub mkdir_race :
    (now : ℕ) (p : Bytes) (b : Backend)
    → (mkdir_locked now (normalize_path p) (close b).1).0 ≡ panic
unfolding mkdir_locked
mkdir_race now p b = go (split slash (normalize_path p)) (split-ne-nil slash (normalize_path p))
  where
    go : (ws : List Bytes) → ws ≢ [] → (mkdir_loop now ws ws 0 (close b).1).0 ≡ panic
    go [] ne = absurd (ne refl)
    go (w ∷ ws) ne = mkdir_loop-closed now w ws 0 b

-- `Move` of a file onto a path with the same normal form reports success and loses the file.
pub move_onto_itself :
    (ctx : Context) (src dst : Bytes) (now : ℕ) (b : Backend)
    → normalize_path src ≡ normalize_path dst
    → (move ctx src dst now b).0 ≡ ok tt
    → object_at (normalize_path src) (move ctx src dst now b).1 ≡ none
move_onto_itself ctx src dst now b same done =
    let (obj, _, law) = move_effect ctx src dst now b done in law (normalize_path src) ∙ rw ==-refl
