-- ===== src/Memory/Listing.antt =====
-- `List`: the files under a prefix, sorted. The context is asked again at each object, so it is
-- the sequence of its answers.
use omnistorage.Base.{ℕ, suc, Bytes, bytes_eq, Bool, ◌||◌, List, [], ◌∷◌, ◌++◌, codes, ◌==◌}
use omnistorage.Base.{if◌then◌else◌, none, some, Context, Result, ok, err, panic}
use omnistorage.Base.Action.{Action, ◌>>=◌, ◌>>◌, pure, gets, lift, check_ctx}
use omnistorage.Base.Dict.{Dict}
use omnistorage.Base.Sort.{sort_strings}
use omnistorage.Paths.Text.{has_prefix}
use omnistorage.Paths.Normal.{normalize_path}
use omnistorage.Memory.State.{Object, Backend, entries, check_closed}

-- The test under "Match prefix".
unfoldable pub matches_prefix : Bytes → Bytes → Bool
matches_prefix prefix p = prefix == [] || has_prefix p prefix || has_prefix p (prefix ++ codes "/")

-- The body of the loop, on what the rest of the map gives.
abbrev pub listed : Bytes → Bytes × Object → List Bytes → List Bytes
listed prefix (p, obj) rest =
    if obj.is_dir then rest else if matches_prefix prefix p then p ∷ rest else rest

unfoldable pub list_loop : (ℕ → Context) → ℕ → Bytes → Dict Bytes Object → Result (List Bytes)
list_loop ctx n prefix [] = ok []
list_loop ctx n prefix (e ∷ d) =
    let rest = list_loop ctx (suc n) prefix d in
    elim (ctx n) [
      | some done ↦ err done
      | none ↦ elim rest [ ok paths ↦ ok (listed prefix e paths) | err f ↦ err f | panic ↦ panic ]
    ]

unfoldable pub list : (ℕ → Context) → Bytes → Action Backend (List Bytes)
unfolding list_loop
list ctx prefix = do
  check_closed
  check_ctx (ctx 0)
  objects ← gets entries
  paths ← lift (list_loop ctx 1 (normalize_path prefix) objects)
  pure (sort_strings paths)
