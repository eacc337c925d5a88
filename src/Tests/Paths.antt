-- ===== src/Tests/Paths.antt =====
-- Paths: what `path.Clean` gives on the examples of its documentation, and instances of the laws.
use omnistorage.Base.{
  Bytes, bytes_eq, nat_eq, ◌≡◌, refl, ◌⊎◌, [], codes, Result, ok, err, invalid_path, All,
}
use omnistorage.Paths.Text.{slash, split, join, has_prefix, contains_text}
use omnistorage.Paths.Clean.{clean, segments, resolve, push, pop, is_rooted}
use omnistorage.Paths.Normal.{validate_path, normalize_path}
use omnistorage.Paths.Confined.{IsInside, normalize_confined}

cleaned : Bytes → Bytes
unfolding clean segments resolve push pop is_rooted split join bytes_eq nat_eq
cleaned p = clean p

clean_examples :
    (cleaned (codes "a/c/b/..") ≡ codes "a/c")
    × (cleaned (codes "/../a/c") ≡ codes "/a/c")
    × (cleaned (codes "/../a/b/../././/c") ≡ codes "/a/c")
    × (cleaned (codes "../../x/..") ≡ codes "../..")
    × (cleaned [] ≡ codes ".")
unfolding cleaned
clean_examples = (refl, refl, refl, refl, refl)

checked : Bytes → Result (Unit {0})
unfolding validate_path cleaned has_prefix contains_text
checked p = validate_path p

-- `validatePath` also refuses names that only begin with two dots.
validate_path_examples :
    (checked (codes "a/../b") ≡ ok tt)
    × (checked (codes "a/../../b") ≡ err invalid_path)
    × (checked (codes "..b") ≡ err invalid_path)
    × (checked (codes "/..b") ≡ ok tt)
unfolding checked
validate_path_examples = (refl, refl, refl, refl)

accepted : validate_path (codes "/a/./b/../c") ≡ ok tt
unfolding checked
accepted = refl

normalize_confined_example :
    (normalize_path (codes "/a/./b/../c") ≡ [])
    ⊎ All IsInside (split slash (normalize_path (codes "/a/./b/../c")))
normalize_confined_example = normalize_confined (codes "/a/./b/../c") accepted
