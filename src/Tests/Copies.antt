-- ===== src/Tests/Copies.antt =====
-- Copies with a hash and of a tree, a file that is verified, and sets of hashes.
use mathlib.Core.List
use mathlib.Core.Path.{subst}
use mathlib.Core.List.{flatten}
use omnistorage.Base.{
  Bytes, bytes_eq, nat_eq, ◌≡◌, refl, ap, true, false, List, [], ◌∷◌, ◌++◌, codes, Option, none,
  some, ok, Context,
}
use omnistorage.Base.Int.{pos}
use omnistorage.Paths.Text.{split, join}
use omnistorage.Paths.Clean.{path_join, clean, segments, resolve, push, pop, is_rooted}
use omnistorage.Features.{HashType, hash_type_eq, hash_md5}
use omnistorage.Transfer.{copy_and_close, io_copy}
use omnistorage.Transfer.Hashed.{
  Hasher, hash_bytes_from_sum, copy_hashed, hash_and_close, copy_path_with_hash,
}
use omnistorage.Transfer.HashedLaws.{IsStreaming}
use omnistorage.Sync.Options.{Options, SyncResult, default_options}
use omnistorage.Sync.Listing.{build_writer_options, copy_file_single}
use omnistorage.Sync.Content.{is_end, compare_content, compare_loop}
use omnistorage.Sync.Copies.{copy_file, is_passed, tree_file, tree_relative, tree_loop, tree_copy}
use omnistorage.Sync.TreeLaws.{Accounted, tree_copy_complete}
use omnistorage.Sync.Verify.{compare_files, verify_file}
use omnistorage.Sync.VerifyLaws.{Compared, verify_file-true}
use omnistorage.Tests.Drive.{Drive, drive, files, looked_up}
use omnistorage.Tests.Conflict.{world}

-- A hash of all bytes.
abbrev whole : Hasher
whole = record { State = Bytes; start = []; add = λ s p. s ++ p; sum = λ s. s }

abbrev only_whole : HashType → Option Hasher
only_whole _ = some whole

abbrev hasher_of : Option Hasher → Hasher
hasher_of none = whole
hasher_of (some h) = h

whole-IsStreaming : IsStreaming whole
whole-IsStreaming = record {
  nothing = λ s. List.append-nil s;
  pieces = λ s a b. List.append_assoc s a b;
}

-- What the runs below compute through.
runs : Drive → Bytes
unfolding is_end flatten hash_bytes_from_sum copy_hashed hash_and_close copy_path_with_hash
    looked_up compare_loop compare_content compare_files verify_file copy_file is_passed tree_file
    tree_relative tree_loop tree_copy build_writer_options copy_file_single copy_and_close io_copy
    path_join clean segments resolve push pop is_rooted split join
runs d = looked_up (codes "s/a") d

hashed :
    (copy_path_with_hash only_whole drive (codes "s/a") drive (codes "d/a") hash_md5 [] files).0
    ≡ ok (codes "6f6e65")
unfolding runs
hashed = refl

all_stream : (k : HashType) (h : Hasher) → only_whole k ≡ some h → IsStreaming h
all_stream k h e = subst (λ x. IsStreaming x) (ap (λ o. hasher_of o) e) whole-IsStreaming

-- A drive with the same file twice.
abbrev twins : Drive
twins = (codes "a", codes "one") ∷ (codes "b", codes "one") ∷ []

alike : (verify_file drive drive (codes "a") (codes "b") twins).0 ≡ ok true
unfolding runs
alike = refl

verify_file-true_example :
    ((drive.exists (codes "a") twins).0 ≡ ok true)
    × ((drive.exists (codes "b") (drive.exists (codes "a") twins).1).0 ≡ ok true)
    × Compared drive drive
        (codes "a")
        (codes "b")
        (drive.exists (codes "b") (drive.exists (codes "a") twins).1).1
verify_file-true_example = verify_file-true drive drive (codes "a") (codes "b") twins alike

abbrev lenient : Options
lenient = record default_options { ignore_existing = true }

abbrev one_of_two : SyncResult
one_of_two = record {
  copied = 1;
  updated = 0;
  deleted = 0;
  skipped = 1;
  errors = [];
  bytes_transferred = pos 0;
  dry_run = false;
}

tree_copied :
    (tree_copy world lenient true drive drive (codes "s") (codes "d") files).0
    ≡ ok (one_of_two, none)
unfolding runs
tree_copied = refl

tree_copy_complete_example :
    (◌≡◌ {A = Context} none none)
    × (paths : List Bytes) × ((drive.list (codes "s") files).0 ≡ ok paths)
    × Accounted world lenient true drive drive
        (codes "s")
        (codes "d")
        paths
        (drive.list (codes "s") files).1
        (tree_copy world lenient true drive drive (codes "s") (codes "d") files).1
        1
        1
tree_copy_complete_example =
    tree_copy_complete world lenient true drive drive (codes "s") (codes "d") files one_of_two none
      refl (λ _. refl) tree_copied refl
