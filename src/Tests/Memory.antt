-- ===== src/Tests/Memory.antt =====
-- A memory backend with a few objects, runs of its methods, and the theorems on it.
use mathlib.Core.List.{flatten}
use omnistorage.Base.{Bytes, bytes_eq, nat_eq, ◌≡◌, refl, false, [], ◌∷◌, codes, ok, none, some}
use omnistorage.Base.{if◌then◌else◌, ◌==◌}
use omnistorage.Base.Int.{pos}
use omnistorage.Base.Dict
use omnistorage.Base.Sort.{text_le, sort_strings, mem, IsSorted}
use omnistorage.Options.{ReaderConfig}
use omnistorage.Paths.Text.{split, join, has_prefix, contains_text, trim_prefix}
use omnistorage.Paths.Clean.{clean, segments, resolve, push, pop, is_rooted}
use omnistorage.Paths.Normal.{validate_path, normalize_path}
use omnistorage.Memory.State.{Object, Backend, object_at}
use omnistorage.Memory.Query.{new_reader, apply_offset, apply_limit}
use omnistorage.Memory.Listing.{list, matches_prefix}
use omnistorage.Memory.Directory.{directory}
use omnistorage.Memory.Invariant.{IsValid, Keeps}
use omnistorage.Memory.Calls.{move_object, perform, perform-Keeps}
use omnistorage.Memory.Refines.{Refines, perform-Refines}
use omnistorage.Memory.RoundTrip.{put_file, range, new_reader-put_file}
use omnistorage.Memory.Queries.{is_listed, list_exact}

abbrev file_of : Bytes → Object
file_of bytes = record {
  data_bytes = bytes;
  content_type = codes "text";
  mod_time = 7;
  is_dir = false;
}

abbrev shelf : Backend
shelf = record {
  objects = some (
      (codes "b/x", file_of (codes "hello"))
      ∷ (codes "a", file_of (codes "one"))
      ∷ (codes "d", directory 3)
      ∷ []);
  closed = false;
}

-- What every run below computes through.
normal : Bytes → Bytes
unfolding normalize_path validate_path clean segments resolve push pop is_rooted split join bytes_eq
    nat_eq has_prefix contains_text trim_prefix Dict.lookup Dict.insert Dict.erase
normal p = normalize_path p

shelf-IsValid : IsValid shelf
unfolding normal
shelf-IsValid = record {
  live = λ _. λ e. cc;
  nodup = (refl, (refl, (refl, tt)));
  normal = (refl, (refl, (refl, tt)));
}

-- Runs: a listing, a range, a copy, a move and the directories.
listed_files : (list (λ _. none) [] shelf).0 ≡ ok (codes "a" ∷ codes "b/x" ∷ [])
unfolding list sort_strings text_le matches_prefix normal
listed_files = refl

abbrev whole : ReaderConfig
whole = record { buffer_size = pos 0; offset = pos 0; limit = pos 0 }

abbrev middle : ReaderConfig
middle = record { buffer_size = pos 0; offset = pos 1; limit = pos 3 }

read_range : (new_reader none (codes "/b/./x") middle shelf).0 ≡ ok (codes "ell")
unfolding new_reader apply_offset apply_limit normal
read_range = refl

valid_a : validate_path (codes "a") ≡ ok tt
unfolding normal
valid_a = refl

perform-Keeps_example : Keeps (perform (move_object none (codes "a") (codes "c") 9) shelf)
perform-Keeps_example =
    perform-Keeps (move_object none (codes "a") (codes "c") 9) shelf shelf-IsValid

perform-Refines_example : Refines (move_object none (codes "a") (codes "c") 9) shelf
perform-Refines_example =
    perform-Refines (move_object none (codes "a") (codes "c") 9) shelf shelf-IsValid

new_reader-put_file_example :
    (new_reader none
      (codes "a")
      middle
      (put_file none (codes "a") [] (codes "fo" ∷ codes "ur" ∷ []) 9 shelf).1).0
    ≡ (if normalize_path (codes "a") == normalize_path (codes "a")
        then ok (range middle (flatten (codes "fo" ∷ codes "ur" ∷ [])))
        else (new_reader none (codes "a") middle shelf).0)
new_reader-put_file_example =
    new_reader-put_file (codes "a") [] (codes "fo" ∷ codes "ur" ∷ []) 9 shelf shelf-IsValid refl
      valid_a (codes "a") middle valid_a

list_exact_example :
    IsSorted (codes "a" ∷ codes "b/x" ∷ [])
    × ((p : Bytes)
        → mem p (codes "a" ∷ codes "b/x" ∷ [])
          ≡ is_listed (normalize_path []) p (object_at p shelf))
list_exact_example = list_exact (λ _. none) [] shelf shelf-IsValid listed_files
