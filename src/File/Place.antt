-- ===== src/File/Place.antt =====
-- Where a path is on the disk: `validatePath` and `fullPath`, and what they use of the package
-- filepath, for systems whose separator is a slash.
use omnistorage.Base.{
  Bytes, bytes_eq, nat_eq, Bool, false, not, ◌&&◌, ◌||◌, List, [], ◌∷◌, ◌++◌, codes, ok, err,
  message, invalid_path, Result, map, if◌then◌else◌, ◌==◌,
}
use omnistorage.Paths.Text.{slash, join, has_prefix, contains_text}
use omnistorage.Paths.Clean.{dot, dotdot, is_rooted, segments, clean, path_join}

-- The cleaned path begins with two dots or has `../` in it.
unfoldable pub leaves_root : Bytes → Bool
leaves_root cleaned = has_prefix cleaned dotdot || contains_text cleaned (codes "../")

unfoldable pub validate_path : Bytes → Result (Unit {0})
unfolding leaves_root
validate_path p =
    if p == [] then err invalid_path else if leaves_root (clean p) then err invalid_path else ok tt

unfoldable pub full_path : Bytes → Bytes → Bytes
full_path root p = path_join root p

-- Up to the last slash, with it.
unfoldable pub parent_part : Bytes → Bytes
parent_part [] = []
parent_part (c ∷ s) = elim (parent_part s) [
  | [] ↦ if c == slash then c ∷ [] else []
  | d ∷ t ↦ c ∷ d ∷ t
]

-- `filepath.Dir`
unfoldable pub dir : Bytes → Bytes
unfolding parent_part
dir p = clean (parent_part p)

-- `filepath.Ext`: from the last dot of the last field on.
unfoldable pub ext : Bytes → Bytes
ext [] = []
ext (c ∷ s) = elim (ext s) [
  | [] ↦ if c == 46 && not (contains_text s (codes "/")) then c ∷ s else []
  | d ∷ t ↦ d ∷ t
]

-- The fields behind those that both have, and whether the first list has a `..` left.
unfoldable pub behind : List Bytes → List Bytes → List Bytes × List Bytes
behind (v ∷ vs) (w ∷ ws) = let rest = behind vs ws in if v == w then rest else (v ∷ vs, w ∷ ws)
behind vs ws = (vs, ws)

unfoldable pub climbs : List Bytes → Bool
climbs [] = false
climbs (v ∷ vs) = v == dotdot || climbs vs

-- `filepath.Rel`
unfoldable pub rel : Bytes → Bytes → Result Bytes
unfolding behind climbs
rel base target =
    let (up, down) = behind (segments base) (segments target) in
    let steps = map (λ _. dotdot) up ++ down in
    if (is_rooted base && is_rooted target) || not (is_rooted base || is_rooted target)
    then (if climbs up
        then err (message "Rel: can't make relative" target)
        else if join slash steps == []
        then ok dot
        else ok (join slash steps))
    else err (message "Rel: can't make relative" target)
