-- ===== src/Paths/Clean.antt =====
-- `path.Clean` and `path.Join` of Go's standard library, on the fields between slashes.
use omnistorage.Base.{Bytes, Bool, false, List, [], ◌∷◌, ◌++◌, codes, ◌==◌}
use omnistorage.Base.{bytes_eq, nat_eq, if◌then◌else◌}
use mathlib.Core.List.{reverse}
use omnistorage.Paths.Text.{slash, split, join}

abbrev pub dot : Bytes
dot = codes "."

abbrev pub dotdot : Bytes
dotdot = codes ".."

unfoldable pub is_rooted : Bytes → Bool
is_rooted [] = false
is_rooted (c ∷ s) = c == slash

-- The fields kept so far, the last one first. `..` takes one off where that can be done, and at
-- the root of a rooted path it is dropped.
unfoldable pub pop : Bool → List Bytes → List Bytes
pop rooted [] = if rooted then [] else dotdot ∷ []
pop rooted (top ∷ out) = if top == dotdot then dotdot ∷ top ∷ out else out

unfoldable pub push : Bool → List Bytes → Bytes → List Bytes
push rooted out w =
    if w == []
    then out
    else if w == dot
    then out
    else if w == dotdot
    then pop rooted out
    else w ∷ out

unfoldable pub resolve : Bool → List Bytes → List Bytes → List Bytes
resolve rooted out [] = out
resolve rooted out (w ∷ ws) = resolve rooted (push rooted out w) ws

unfoldable pub segments : Bytes → List Bytes
segments p = reverse (resolve (is_rooted p) [] (split slash p))

abbrev or_dot : Bytes → Bytes
or_dot [] = dot
or_dot (c ∷ s) = c ∷ s

-- `path.Clean`
unfoldable pub clean : Bytes → Bytes
clean p = if is_rooted p then slash ∷ join slash (segments p) else or_dot (join slash (segments p))

-- `path.Join(a, b)`
unfoldable pub path_join : Bytes → Bytes → Bytes
path_join [] [] = []
path_join [] (c ∷ b) = clean (c ∷ b)
path_join (c ∷ a) b = clean ((c ∷ a) ++ slash ∷ b)
