-- ===== src/Tests/Conflict.antt =====
-- A conflict on the drive, resolved for the newer side.
use omnistorage.Base.{[], Bytes, bytes_eq, nat_eq, ◌≡◌, refl, true, false, codes, none, ok}
use omnistorage.Base.Int.{pos}
use omnistorage.Paths.Text.{split, join}
use omnistorage.Paths.Clean.{path_join, clean, segments, resolve, push, pop, is_rooted}
use omnistorage.Transfer.{copy_and_close, io_copy}
use omnistorage.Sync.Options.{default_options, FileInfo}
use omnistorage.Sync.Listing.{
  Environment, build_writer_options, copy_file_single, copy_file_with_context,
}
use omnistorage.Sync.Conflict.{newer_wins, to2, Resolution, resolved_by, resolve_conflict}
use omnistorage.Tests.Drive.{Drive, drive, files, calm, looked_up}

abbrev pub world : Environment
world = record {
  glob = λ _ _. false;
  times_equal = λ _ _. false;
  clock = λ _. 100;
  waits = calm;
  context = λ _. none;
}

abbrev newer : FileInfo
newer = record { path = codes "b"; size = pos 3; mod_time = 9; hash = []; is_dir = false }

abbrev older : FileInfo
older = record { path = codes "b"; size = pos 3; mod_time = 4; hash = []; is_dir = false }

abbrev resolution : Resolution
resolution = record { label = codes "newer-wins:path1"; direction = to2; failure = none }

resolved : Drive → Bytes
unfolding resolve_conflict resolved_by build_writer_options copy_file_single copy_file_with_context
    copy_and_close io_copy looked_up path_join clean segments resolve push pop is_rooted split join
resolved d =
    looked_up (codes "d/b")
      (resolve_conflict world default_options true drive drive (codes "s") (codes "d")
        (codes ".conflict") newer_wins false newer older d).1

first_wins : resolved files ≡ codes "two"
unfolding resolved
first_wins = refl

done_for_first :
    (resolve_conflict world default_options true drive drive
      (codes "s")
      (codes "d")
      (codes ".conflict")
      newer_wins
      false
      newer
      older
      files).0
    ≡ ok resolution
unfolding resolved
done_for_first = refl
