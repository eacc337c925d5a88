-- ===== src/Tests/Sync.antt =====
-- A run of `Sync` from one directory of the drive to another, and the theorems about runs.
use mathlib.Core.List.{flatten}
use omnistorage.Base.{
  ℕ, ◌+◌, Bytes, bytes_eq, nat_eq, ◌≡◌, refl, ◌≢◌, ◌↔◌, Bool, true, false, not, ◌&&◌, List, [], ◌∷◌,
  codes, some, none, ok, panic, Context, length, ◌==◌,
}
use omnistorage.Base.Int.{pos, ◌+ℤ◌, int_eq}
use omnistorage.Base.Dict
use omnistorage.Base.Dict.{Dict}
use omnistorage.Base.Sort.{mem}
use omnistorage.Paths.Text.{split, join}
use omnistorage.Paths.Clean.{path_join, clean, segments, resolve, push, pop, is_rooted}
use omnistorage.Backends.{Stream}
use omnistorage.Transfer.{copy_and_close, io_copy}
use omnistorage.Sync.Options.{
  Options, default_options, FileInfo, FileError, SyncResult, needs_update,
}
use omnistorage.Sync.Filter.{Rule, rule_include, rule_max_size, FilterInfo}
use omnistorage.Sync.Compare.{decide, compare_files, file_map, plain_paths, to_delete}
use omnistorage.Sync.CompareLaws.{treated, plain_count, all_wanted, is_plain, compare_files_exact}
use omnistorage.Sync.Listing.{
  Environment, list_files, describe, describe_all, is_accepted, relative, build_writer_options,
  copy_file_single, copy_file_with_context,
}
use omnistorage.Sync.Run.{should_stop, transfer, delete_loop, execute, sync}
use omnistorage.Sync.Outcomes.{plan, sync_dry, sync_complete}
use omnistorage.Sync.TransferLaws.{Copied}
use omnistorage.Sync.RunLaws.{Deleted}
use omnistorage.Sync.Move.{move_loop, Confirmed, move_loop-Confirmed}
use omnistorage.Sync.Content.{is_end, compare_content}
use omnistorage.Sync.ContentLaws.{compare_content_exact}
use omnistorage.Sync.Check.{CheckResult, check_loop, check_file, files_match, add_verdict, keys}
use omnistorage.Sync.CheckLaws.{compared_count}
use omnistorage.Sync.CheckVerdicts.{InLists, Listed}
use omnistorage.Sync.CheckResults.{LookedAt, Judged, check_exact}
use omnistorage.Tests.Drive.{Drive, drive, files, calm, looked_up}

abbrev world : Environment
world = record {
  glob = λ pattern path. pattern == path;
  times_equal = λ t u. t == u;
  clock = λ _. 100;
  waits = calm;
  context = λ _. none;
}

abbrev mirror : Options
mirror = record default_options { delete_extra = true; ignore_time = true }

abbrev trial : Options
trial = record mirror { dry_run = true }

abbrev result_of : Bool → SyncResult
result_of dry = record {
  copied = 1;
  updated = 0;
  deleted = 0;
  skipped = 1;
  errors = [];
  bytes_transferred = pos 0;
  dry_run = dry;
}

-- What the runs below compute through.
ran : Options → (Drive → Drive)
unfolding sync execute transfer delete_loop should_stop list_files describe_all describe is_accepted
    relative build_writer_options copy_file_single copy_file_with_context copy_and_close io_copy
    compare_files decide file_map plain_paths to_delete needs_update looked_up path_join clean
    segments resolve push pop is_rooted split join ◌+ℤ◌ int_eq
ran opts d = (sync world opts true drive drive (codes "s") (codes "d") d).1

tried :
    (sync world trial true drive drive (codes "s") (codes "d") files).0 ≡ ok (result_of true, none)
unfolding ran
tried = refl

done :
    (sync world mirror true drive drive (codes "s") (codes "d") files).0
    ≡ ok (result_of false, none)
unfolding ran
done = refl

copied_over : looked_up (codes "d/a") (ran mirror files) ≡ codes "one"
unfolding ran looked_up
copied_over = refl

sync_dry_example :
    ((sync world trial true drive drive (codes "s") (codes "d") files).1
      ≡ (list_files world trial drive
          (codes "d")
          (list_files world trial drive (codes "s") files).1).1)
    × (◌≡◌ {A = List FileError} [] [])
sync_dry_example =
    sync_dry world trial true drive drive (codes "s") (codes "d") files (result_of true) none refl
      tried

sync_complete_example :
    (◌≡◌ {A = Context} none none)
    × (fs : List FileInfo) × (ds : List FileInfo) × ((list_files world mirror drive
          (codes "s")
          files).0
        ≡ ok fs)
    × ((list_files world mirror drive
          (codes "d")
          (list_files world mirror drive (codes "s") files).1).0
        ≡ ok ds)
    × (middle : Drive) × Copied world mirror true drive drive
        (codes "s")
        (codes "d")
        (plan world mirror true drive drive (codes "s") (codes "d") files fs ds).to_copy
        (list_files world mirror drive
          (codes "d")
          (list_files world mirror drive (codes "s") files).1).1
        middle
    × Deleted world mirror true drive drive
        (codes "s")
        (codes "d")
        (to_delete mirror (plan world mirror true drive drive (codes "s") (codes "d") files fs ds))
        middle
        (sync world mirror true drive drive (codes "s") (codes "d") files).1
    × (1 + 0
        ≡ length (plan world mirror true drive drive (codes "s") (codes "d") files fs ds).to_copy)
    × (1 + 0 + 1 ≡ plain_count fs)
    × (0
        ≡ length (
            to_delete mirror
              (plan world mirror true drive drive (codes "s") (codes "d") files fs ds)))
sync_complete_example =
    sync_complete world mirror true drive drive (codes "s") (codes "d") files (result_of false) none
      (λ _. refl) refl done refl

abbrev info : Bytes → ℕ → FileInfo
info p n = record { path = p; size = pos n; mod_time = 0; hash = []; is_dir = false }

abbrev source : List FileInfo
source = info (codes "a") 1 ∷ info (codes "b") 2 ∷ []

abbrev target : Dict Bytes FileInfo
target = (codes "b", info (codes "b") 3) ∷ (codes "c", info (codes "c") 4) ∷ []

same_time : ℕ → ℕ → Bool
same_time t u = t == u

compare_files_exact_example :
    let p = compare_files same_time mirror source target in
    (p.to_copy ≡ all_wanted same_time mirror target source)
    × (length p.to_copy + p.skipped ≡ plain_count source)
    × ((q : Bytes)
        → mem q (to_delete mirror p)
          ≡ (mirror.delete_extra && (not (treated q source) && is_plain (Dict.lookup q target))))
unfolding treated looked_up
compare_files_exact_example =
    compare_files_exact same_time mirror source target ((λ _. refl), ((λ _. refl), tt))
      (refl, (refl, tt))

abbrev verdicts : CheckResult
verdicts = record {
  matching = [];
  differ = codes "b" ∷ [];
  src_only = codes "a" ∷ [];
  dst_only = codes "c" ∷ [];
  errors = [];
}

checked :
    (check_loop mirror drive drive (codes "s") (codes "d") source target files).0 ≡ ok verdicts
unfolding check_loop check_file files_match add_verdict keys int_eq looked_up
checked = refl

check_exact_example :
    (compared_count verdicts ≡ plain_count source)
    × ((q : Bytes)
        → (mem q (codes "a" ∷ []) ≡ (treated q source && not (Dict.contains q target)))
          × (mem q (codes "c" ∷ []) ≡ (Dict.contains q target && not (treated q source)))
          × (treated q source && Dict.contains q target ≡ false
              → InLists q verdicts false false false))
    × ((f g : FileInfo)
        → Listed f source
        → Dict.lookup f.path target ≡ some g
        → (w : Drive) × LookedAt mirror drive drive (codes "s") (codes "d") f source target files w
          × Judged mirror drive drive (codes "s") (codes "d") f g verdicts w)
unfolding treated looked_up
check_exact_example =
    check_exact mirror drive drive (codes "s") (codes "d") source target files verdicts
      ((λ _. refl), ((λ _. refl), tt)) checked

opened_a :
    (drive.new_reader (codes "s/a") files).0
    ≡ ok (record { chunks = codes "one" ∷ []; failure = none })
unfolding looked_up
opened_a = refl

opened_b :
    (drive.new_reader (codes "s/b") files).0
    ≡ ok (record { chunks = codes "two" ∷ []; failure = none })
unfolding looked_up
opened_b = refl

abbrev stream_a : Stream
stream_a = record { chunks = codes "one" ∷ []; failure = none }

abbrev stream_b : Stream
stream_b = record { chunks = codes "two" ∷ []; failure = none }

compare_content_exact_example :
    ((compare_content drive drive (codes "s/a") (codes "s/b") files).0 ≢ panic)
    × (((compare_content drive drive (codes "s/a") (codes "s/b") files).0 ≡ ok true) ↔ (
        (flatten stream_a.chunks ≡ flatten stream_b.chunks)
        × (is_end stream_a.failure ≡ true)
        × (is_end stream_b.failure ≡ true)))
compare_content_exact_example =
    compare_content_exact drive drive (codes "s/a") (codes "s/b") files stream_a stream_b opened_a
      opened_b

abbrev rules : List Rule
rules = rule_include (codes "a") ∷ rule_max_size (pos 5) ∷ []

abbrev candidate : FilterInfo
candidate = record { path = codes "a"; size = pos 3; mod_time = 0; is_dir = false }

move_loop-Confirmed_example :
    Confirmed world mirror true drive drive
      (codes "s")
      (codes "d")
      source
      files
      (move_loop world mirror true drive drive
        (codes "s")
        (codes "d")
        0
        source
        (files, result_of false)).1.0
move_loop-Confirmed_example =
    move_loop-Confirmed world mirror true drive drive (codes "s") (codes "d") 0 source files
      (result_of false)

-- A file of the source that the destination has is gone.
moved_away :
    looked_up
      (codes "s/b")
      (move_loop world mirror true drive drive
        (codes "s")
        (codes "d")
        0
        source
        (files, result_of false)).1.0
    ≡ []
unfolding move_loop looked_up path_join clean segments resolve push pop is_rooted split join
moved_away = refl
