-- ===== src/Tests/Bisync.antt =====
-- Two folders of the drive, synchronised both ways.
use omnistorage.Base.{
  ℕ, ◌+◌, Bytes, bytes_eq, nat_eq, ◌≡◌, refl, Bool, true, false, List, [], ◌∷◌, codes, none, ok,
  Context, length,
}
use omnistorage.Base.Int.{pos, ◌+ℤ◌, int_eq}
use omnistorage.Base.Dict
use omnistorage.Paths.Text.{split, join}
use omnistorage.Paths.Clean.{clean, segments, resolve, push, pop, is_rooted, path_join}
use omnistorage.Transfer.{copy_and_close, io_copy}
use omnistorage.Sync.Options.{FileInfo, needs_update, default_options}
use omnistorage.Sync.Listing.{
  relative, is_accepted, describe, describe_all, list_files, build_writer_options, copy_file_single,
  copy_file_with_context,
}
use omnistorage.Sync.Check.{plain_map}
use omnistorage.Sync.Conflict.{resolve_conflict, resolved_by, run_copies}
use omnistorage.Sync.Bisync.Options.{
  BisyncOptions, BisyncResult, default_bisync_options, set_defaults, scan_options, copy_options,
}
use omnistorage.Sync.Bisync.Plan.{first_loop, categorize, second_loop, plan_bisync}
use omnistorage.Sync.Bisync.PlanLaws.{actions_at, wanted, only_in, plan_bisync_exact}
use omnistorage.Sync.Bisync.Run.{
  copy_direction, handle_conflict, note_conflict, add_updated, act, max_errors_reached, action_loop,
  run_plan, bisync,
}
use omnistorage.Sync.Bisync.Acts.{to2_count, to1_count, conflict_count}
use omnistorage.Sync.Bisync.Effects.{Performed}
use omnistorage.Sync.Bisync.Outcomes.{first_scan, second_scan, plan, bisync_complete}
use omnistorage.Tests.Drive.{Drive, drive, files, looked_up}
use omnistorage.Tests.Conflict.{world}

abbrev bare_b : FileInfo
bare_b = record { path = codes "b"; size = pos 0; mod_time = 0; hash = []; is_dir = false }

abbrev bare_a : FileInfo
bare_a = record { path = codes "a"; size = pos 0; mod_time = 0; hash = []; is_dir = false }

-- What the runs below compute through.
both_ways : BisyncOptions → Drive → Bytes
unfolding int_eq ◌+ℤ◌ bisync run_plan action_loop act copy_direction handle_conflict note_conflict
    add_updated max_errors_reached plan_bisync first_loop categorize second_loop plain_map
    set_defaults scan_options copy_options list_files describe_all describe is_accepted relative
    needs_update resolve_conflict resolved_by run_copies build_writer_options copy_file_single
    copy_file_with_context copy_and_close io_copy looked_up path_join clean segments resolve push
    pop is_rooted split join
both_ways opts d =
    looked_up (codes "s/b") (bisync world opts true drive drive (codes "s") (codes "d") d).1

second_wins : both_ways default_bisync_options files ≡ codes "old"
unfolding both_ways
second_wins = refl

plan_bisync_exact_example :
    let map1 = plain_map (bare_a ∷ []) [] in
    let map2 = plain_map (bare_b ∷ []) [] in
    (actions_at
        (codes "a")
        (plan_bisync world.times_equal default_options (bare_a ∷ []) (bare_b ∷ [])).actions
      ≡ wanted world.times_equal default_options
          (Dict.lookup (codes "a") map1)
          (Dict.lookup (codes "a") map2))
    × (length (plan_bisync world.times_equal default_options (bare_a ∷ []) (bare_b ∷ [])).actions
          + (plan_bisync world.times_equal default_options (bare_a ∷ []) (bare_b ∷ [])).skipped
        ≡ length map1 + only_in map1 map2)
plan_bisync_exact_example =
    plan_bisync_exact world.times_equal default_options (bare_a ∷ []) (bare_b ∷ []) (codes "a")

-- One file is copied, and one is a conflict.
abbrev outcome : Bool → ℕ → BisyncResult
outcome dry updated = record {
  copied_to_path2 = 1;
  copied_to_path1 = 0;
  updated_in_path2 = 0;
  updated_in_path1 = updated;
  deleted_from_path1 = 0;
  deleted_from_path2 = 0;
  conflicts =
      record {
        path = codes "b";
        path1_info = bare_b;
        path2_info = bare_b;
        resolution = codes "newer-wins:path2";
        error = none;
      }
      ∷ [];
  skipped = 0;
  errors = [];
  bytes_transferred = pos 0;
  dry_run = dry;
}

abbrev cautious : BisyncOptions
cautious = record default_bisync_options { dry_run = true }

dry_run :
    (bisync world cautious true drive drive (codes "s") (codes "d") files).0
    ≡ ok (outcome true 0, none)
unfolding both_ways
dry_run = refl

wet_run :
    (bisync world default_bisync_options true drive drive (codes "s") (codes "d") files).0
    ≡ ok (outcome false 1, none)
unfolding both_ways
wet_run = refl

bisync_complete_example :
    let opts = default_bisync_options in
    (◌≡◌ {A = Context} none none)
    × (files1 : List FileInfo) × (files2 : List FileInfo) × ((first_scan world opts true drive drive
          (codes "s")
          (codes "d")
          files).0
        ≡ ok files1)
    × ((second_scan world opts true drive drive (codes "s") (codes "d") files).0 ≡ ok files2)
    × Performed world
        (set_defaults opts)
        true
        drive
        drive
        (codes "s")
        (codes "d")
        (plan world opts true drive drive (codes "s") (codes "d") files files1 files2).actions
        (second_scan world opts true drive drive (codes "s") (codes "d") files).1
        (bisync world opts true drive drive (codes "s") (codes "d") files).1
    × (1
        ≡ to2_count
            (plan world opts true drive drive (codes "s") (codes "d") files files1 files2).actions)
    × (0
        ≡ to1_count
            (plan world opts true drive drive (codes "s") (codes "d") files files1 files2).actions)
    × (1
        ≡ conflict_count
            (plan world opts true drive drive (codes "s") (codes "d") files files1 files2).actions)
    × (2 ≡ length (plain_map files1 []) + only_in (plain_map files1 []) (plain_map files2 []))
bisync_complete_example =
    bisync_complete world default_bisync_options true drive drive (codes "s") (codes "d") files
      (outcome false 1) none (λ _. refl) refl wet_run refl
