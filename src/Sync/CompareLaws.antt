-- ===== src/Sync/CompareLaws.antt =====
-- The plan of a run against what its comments promise.
use omnistorage.Base.{
  ℕ, suc, ◌+◌, Bytes, bytes_eq, ◌≡◌, refl, Bool, true, false, not, ◌&&◌, ◌||◌, List, [], ◌∷◌,
  Option, none, some, if◌then◌else◌, ◌==◌, arith, length,
}
use omnistorage.Base.Dict
use omnistorage.Base.Dict.{Dict, NodupKeys}
use omnistorage.Base.Sort.{mem}
use omnistorage.Sync.Options.{Options, FileInfo, needs_update}
use omnistorage.Sync.Compare.{CopyAction, Plan, decide, compare_files, plain_paths, to_delete}

-- The files that a run treats, and whether one of them has the path.
unfoldable pub treated : Bytes → List FileInfo → Bool
treated p [] = false
treated p (f ∷ fs) = let rest = treated p fs in if f.is_dir then rest else p == f.path || rest

unfoldable pub plain_count : List FileInfo → ℕ
plain_count [] = 0
plain_count (f ∷ fs) = let rest = plain_count fs in if f.is_dir then rest else suc rest

-- No two of the files that are no directories have the same path.
abbrev pub DistinctPaths : List FileInfo → Type 0
DistinctPaths [] = Unit
DistinctPaths (f ∷ fs) = (f.is_dir ≡ false → treated f.path fs ≡ false) × DistinctPaths fs

module _ (times_equal : ℕ → ℕ → Bool) (opts : Options) where
  -- Whether a file is to be copied, and then whether as an update, from the destination as it was
  -- listed: a file that is not there is copied as a new one, and one that is there is copied as
  -- an update if it is no directory, needs an update and existing files are not to be ignored.
  abbrev pub wanted : Option FileInfo → FileInfo → Option Bool
  wanted none f = some false
  wanted (some d) f =
      if not d.is_dir && (needs_update times_equal f d opts && not opts.ignore_existing)
      then some true
      else none

  abbrev pub add_wanted : FileInfo → Option Bool → List CopyAction → List CopyAction
  add_wanted f none actions = actions
  add_wanted f (some u) actions = record { file = f; is_update = u } ∷ actions

  -- The files that are no directories and that are wanted, in the order of the listing.
  unfoldable pub all_wanted : Dict Bytes FileInfo → List FileInfo → List CopyAction
  all_wanted m [] = []
  all_wanted m (f ∷ fs) =
      let rest = all_wanted m fs in
      if f.is_dir then rest else add_wanted f (wanted (Dict.lookup f.path m) f) rest

  decide_copies :
      (f : FileInfo) (o : Option FileInfo) (p : Plan)
      → (decide times_equal opts f o p).to_copy ≡ add_wanted f (wanted o f) p.to_copy
  unfolding decide
  decide_copies f none p = refl
  decide_copies f (some d) p = ground arith

  decide_left :
      (f : FileInfo) (o : Option FileInfo) (p : Plan)
      → (decide times_equal opts f o p).left ≡ p.left
  unfolding decide
  decide_left f none p = refl
  decide_left f (some d) p = ground arith

  decide_count :
      (f : FileInfo) (o : Option FileInfo) (p : Plan)
      → length (decide times_equal opts f o p).to_copy + (decide times_equal opts f o p).skipped
        ≡ suc (length p.to_copy + p.skipped)
  unfolding decide
  decide_count f none p = omega arith
  decide_count f (some d) p = ground arith

  -- To take a path out of the map changes nothing for files of other paths.
  all_wanted-erase :
      (p : Bytes) (m : Dict Bytes FileInfo) (fs : List FileInfo)
      → treated p fs ≡ false
      → all_wanted (Dict.erase p m) fs ≡ all_wanted m fs
  unfolding all_wanted treated
  all_wanted-erase p m [] h = refl
  all_wanted-erase p m (f ∷ fs) h =
      ground (arith, all_wanted-erase p m fs, Dict.lookup-erase f.path p m)

  to_copy_lem :
      (fs : List FileInfo) (m : Dict Bytes FileInfo)
      → DistinctPaths fs
      → (compare_files times_equal opts fs m).to_copy ≡ all_wanted m fs
  unfolding compare_files all_wanted
  to_copy_lem [] m h = refl
  to_copy_lem (f ∷ fs) m (fresh, h) = ground (
    arith,
    to_copy_lem fs m h,
    to_copy_lem fs (Dict.erase f.path m) h,
    decide_copies f (Dict.lookup f.path m)
        (compare_files times_equal opts fs (Dict.erase f.path m)),
    all_wanted-erase f.path m fs,
  )

  left_lem :
      (fs : List FileInfo) (m : Dict Bytes FileInfo) (q : Bytes)
      → Dict.lookup q (compare_files times_equal opts fs m).left
        ≡ (if treated q fs then none else Dict.lookup q m)
  unfolding compare_files treated
  left_lem [] m q = refl
  left_lem (f ∷ fs) m q = ground (
    arith,
    left_lem fs m q,
    left_lem fs (Dict.erase f.path m) q,
    decide_left f (Dict.lookup f.path m) (compare_files times_equal opts fs (Dict.erase f.path m)),
    Dict.lookup-erase q f.path m,
  )

  pub count_lem :
      (fs : List FileInfo) (m : Dict Bytes FileInfo)
      → length (compare_files times_equal opts fs m).to_copy
          + (compare_files times_equal opts fs m).skipped
        ≡ plain_count fs
  unfolding compare_files plain_count
  count_lem [] m = omega arith
  count_lem (f ∷ fs) m = ground (
    arith,
    count_lem fs m,
    count_lem fs (Dict.erase f.path m),
    decide_count f (Dict.lookup f.path m) (compare_files times_equal opts fs (Dict.erase f.path m)),
  )

  left-NodupKeys :
      (fs : List FileInfo) (m : Dict Bytes FileInfo)
      → NodupKeys m
      → NodupKeys (compare_files times_equal opts fs m).left
  unfolding compare_files
  left-NodupKeys [] m h = h
  left-NodupKeys (f ∷ fs) m h = ground (
    arith,
    left-NodupKeys fs m h,
    left-NodupKeys fs (Dict.erase f.path m) (Dict.erase-NodupKeys f.path m h),
    decide_left f (Dict.lookup f.path m) (compare_files times_equal opts fs (Dict.erase f.path m)),
  )

-- There is a file, and it is no directory.
abbrev pub is_plain : Option FileInfo → Bool
is_plain none = false
is_plain (some f) = not f.is_dir

mem-plain_paths :
    (q : Bytes) (m : Dict Bytes FileInfo)
    → NodupKeys m
    → mem q (plain_paths m) ≡ is_plain (Dict.lookup q m)
unfolding plain_paths mem Dict.lookup
mem-plain_paths q [] h = refl
mem-plain_paths q ((p, f) ∷ m) h = ground (arith, mem-plain_paths q m h.1)

-- If no two files of the source, of those that are no directories, have the same path: exactly
-- the wanted files are copied, each of them counts as an update or not by the destination as it
-- was listed; what is not copied is counted as skipped; and deleted are, if extra files are to be,
-- exactly the paths of destination files that are no directories and are no file of the source.
pub compare_files_exact :
    (times_equal : ℕ → ℕ → Bool) (opts : Options) (fs : List FileInfo) (m : Dict Bytes FileInfo)
    → DistinctPaths fs
    → NodupKeys m
    → let p = compare_files times_equal opts fs m in
      (p.to_copy ≡ all_wanted times_equal opts m fs)
      × (length p.to_copy + p.skipped ≡ plain_count fs)
      × ((q : Bytes)
          → mem q (to_delete opts p)
            ≡ (opts.delete_extra && (not (treated q fs) && is_plain (Dict.lookup q m))))
unfolding to_delete mem
compare_files_exact times_equal opts fs m distinct h = (
  to_copy_lem times_equal opts fs m distinct,
  count_lem times_equal opts fs m,
  λ q.
      let p = compare_files times_equal opts fs m in
      ground (
        arith,
        mem-plain_paths q p.left (left-NodupKeys times_equal opts fs m h),
        left_lem times_equal opts fs m q,
      ),
)
