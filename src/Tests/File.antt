-- ===== src/Tests/File.antt =====
-- A disk as a list of files, and the theorems on the file backend over it.
use omnistorage.Base.{
  Bytes, bytes_eq, nat_eq, ◌≡◌, refl, ◌≢◌, false, [], ◌∷◌, ◌++◌, codes, Option, none, some,
  not_found, ok, err, All,
}
use omnistorage.Base.Int.{pos}
use omnistorage.Base.Dict
use omnistorage.Base.Dict.{Dict}
use omnistorage.Paths.Text.{split, join, has_prefix, contains_text}
use omnistorage.Paths.Clean.{clean, segments, resolve, push, pop, is_rooted, path_join}
use omnistorage.Paths.Confined.{IsInside}
use omnistorage.File.System.{System}
use omnistorage.File.Place.{
  validate_path, full_path, leaves_root, ext, rel, behind, climbs, dir, parent_part,
}
use omnistorage.File.Backend.{Backend, new, default_config, list, visit_all, os_error}
use omnistorage.File.Extended.{copy_file, copy}
use omnistorage.File.Confined.{placed, full_path_confined}

-- What the runs below compute through.
placed_at : Bytes → Bytes → Bytes
unfolding full_path path_join clean segments resolve push pop is_rooted split join bytes_eq nat_eq
    validate_path leaves_root has_prefix contains_text ext rel behind climbs dir parent_part
    Dict.lookup Dict.insert copy copy_file os_error list visit_all
placed_at root p = full_path root p

stays_below : placed_at (codes "/data") (codes "a/./b") ≡ codes "/data/a/b"
unfolding placed_at
stays_below = refl

goes_above : placed_at (codes "/data") (codes "/../etc") ≡ codes "/etc"
unfolding placed_at
goes_above = refl

extension : ext (codes "a.b/c.txt") ≡ codes ".txt"
unfolding placed_at
extension = refl

relative : rel (codes "/data") (codes "/data/a/b") ≡ ok (codes "a/b")
unfolding placed_at
relative = refl

parent : dir (codes "/data/a/b") ≡ codes "/data/a"
unfolding placed_at
parent = refl

accepted : validate_path (codes "a/./b") ≡ ok tt
unfolding placed_at
accepted = refl

unrooted : is_rooted (codes "a/./b") ≡ false
unfolding placed_at
unrooted = refl

some_root : codes "/data" ≢ []
some_root e = cc

full_path_confined_example :
    (full_path (codes "/data") (codes "a/./b")
      ≡ placed (is_rooted (codes "/data")) (segments (codes "/data") ++ segments (codes "a/./b")))
    × All IsInside (segments (codes "a/./b"))
full_path_confined_example =
    full_path_confined (codes "/data") (codes "a/./b") some_root unrooted accepted

abbrev Disk : Type 0
Disk = Dict Bytes Bytes

abbrev content : Bytes → Disk → Option Bytes
content p d = Dict.lookup p d

abbrev or_empty : Option Bytes → Bytes
or_empty none = []
or_empty (some bytes) = bytes

abbrev disk : System Disk
disk = record {
  Handle = Bytes;
  stat = λ p d. (
    elim (Dict.lookup p d) [
      | none ↦ err not_found
      | some bytes ↦ ok (record { size = pos 0; mod_time = 0; is_dir = false })
    ],
    d,
  );
  open_file = λ p d. (ok p, d);
  seek = λ p offset d. (ok tt, d);
  create = λ p perm d. (ok p, Dict.insert p [] d);
  copy_data = λ to from d. (ok tt, Dict.insert to (or_empty (content from d)) d);
  close = λ p d. (ok tt, d);
  mkdir_all = λ p perm d. (ok tt, d);
  remove = λ p d. (ok tt, Dict.erase p d);
  rename = λ p q d. (ok tt, d);
  walk = λ p d. ([], d);
  is_not_exist = λ e. false;
  is_permission = λ e. false;
  type_by_extension = λ e. [];
}

abbrev one_file : Disk
one_file = (codes "/data/a", codes "text") ∷ []

abbrev backend : Backend
backend = new (record default_config { root = codes "/data" })

copied : (copy disk backend none (codes "a") (codes "./a") one_file).0 ≡ ok tt
unfolding placed_at new
copied = refl
