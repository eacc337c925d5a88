-- ===== src/Sync/Copies.antt =====
-- sync/copy.go: `Copy` of a file or of all files under a path, `TreeCopy`, and single files.
use omnistorage.Base.{
  ℕ, suc, Bytes, bytes_eq, nat_eq, Bool, true, false, ◌&&◌, List, [], ◌∷◌, codes, none, some,
  Result, ok, err, panic, Context, if◌then◌else◌, ◌==◌, length, drop, ltb,
}
use omnistorage.Base.Int.{ℤ, pos}
use omnistorage.Base.Action.{Action, ◌>>=◌, pure}
use omnistorage.Paths.Clean.{path_join}
use omnistorage.Options.{with_content_type}
use omnistorage.Backends.{Stream, Backend}
use omnistorage.Transfer.{copy_and_close}
use omnistorage.Sync.Options.{Options, SyncResult}
use omnistorage.Sync.Listing.{Environment, copy_file_single, drop_slash}
use omnistorage.Sync.Run.{add_error, should_stop, sync}

abbrev pub empty_result : Bool → SyncResult
empty_result dry = record {
  copied = 0;
  updated = 0;
  deleted = 0;
  skipped = 0;
  errors = [];
  bytes_transferred = pos 0;
  dry_run = dry;
}

-- `len(srcPaths) == 1 && srcPaths[0] == srcPath`
abbrev is_alone : Bytes → List Bytes → Bool
is_alone p [] = false
is_alone p (q ∷ []) = q == p
is_alone p (q ∷ r ∷ rest) = false

module _ {W : Type 0} (same : Bool) (S D : Backend W) where
  -- `CopyFile`, which is `copyFile` of sync.go: no retries and no limits.
  unfoldable pub copy_file : Bytes → Bytes → Action W (Unit {0})
  copy_file src dst = copy_file_single same S src D dst none

  -- The size that `Stat` reports of the source, or zero.
  unfoldable pub size_of : Bytes → Action W ℤ
  size_of src w = elim S.extended [
    | none ↦ (ok (pos 0), w)
    | some x ↦
        let (r, w') = x.stat src w in
        elim r [ ok info ↦ (ok info.size, w') | err _ ↦ (ok (pos 0), w') | panic ↦ (panic, w') ]
  ]

  -- A single file that is to be copied; a dry run copies nothing.
  unfoldable pub copy_one : Options → Bytes → Bytes → Action W SyncResult
  unfolding copy_file size_of
  copy_one opts src dst w =
      let first = empty_result opts.dry_run in
      let (r, w') = if opts.dry_run then (ok tt, w) else copy_file src dst w in
      elim r [
        | err e ↦ (ok (add_error src (codes "copy") e first), w')
        | panic ↦ (panic, w')
        | ok _ ↦ (size_of src >>= λ n. pure (record first { copied = 1; bytes_transferred = n })) w'
      ]

  -- The branch for a single file.
  unfoldable pub copy_alone : Options → Bytes → Bytes → Action W SyncResult
  unfolding copy_one
  copy_alone opts src dst =
      if opts.ignore_existing
      then (D.exists dst >>= λ there.
          if there
          then pure (record (empty_result opts.dry_run) { skipped = 1 })
          else copy_one opts src dst)
      else copy_one opts src dst

  -- `Copy`: what is not a single file is left to `Sync`, without deletions.
  unfoldable pub copy : Environment → Options → Bytes → Bytes → Action W (SyncResult × Context)
  unfolding copy_alone
  copy env opts src dst = do
    there ← S.exists src
    paths ← S.list src
    if there && is_alone src paths
        then (copy_alone opts src dst >>= λ r. pure (r, none))
        else sync env (record opts { delete_extra = false }) same S D src dst

  -- `CopyBetweenPaths`
  unfoldable pub copy_between_paths : Bytes → Bytes → Action W (Unit {0})
  unfolding copy_file
  copy_between_paths src dst = elim S.extended [
    | none ↦ copy_file src dst
    | some x ↦
        if same
        then (if x.features.copy then x.copy src dst else copy_file src dst)
        else copy_file src dst
  ]

module _ {W : Type 0} (D : Backend W) where
  -- `copyFileWithReader` and `CopyToPath`
  unfoldable pub copy_to_path : Stream → Bytes → Bytes → Action W (Unit {0})
  copy_to_path stream dst content_type = do
    w ← D.new_writer dst (if content_type == [] then [] else with_content_type content_type ∷ [])
    copy_and_close D w stream

-- What is behind the path of the source, without a slash in front, where there is something.
unfoldable pub tree_relative : Bytes → Bytes → Bytes
tree_relative src p =
    if ltb 0 (length src) && ltb (length src) (length p)
    then drop_slash (drop (length src) p)
    else p

module _ {W : Type 0} (env : Environment) (opts : Options) (same : Bool) (S D : Backend W)
    (src dst : Bytes) where
  -- Whether the file is passed over: an error of `Exists` is taken for no.
  unfoldable pub is_passed : Bytes → Action W Bool
  is_passed p w =
      if opts.ignore_existing
      then (let (r, w') = D.exists p w in
          elim r [ ok b ↦ (ok b, w') | err _ ↦ (ok false, w') | panic ↦ (panic, w') ])
      else (ok false, w)

  -- A file that is not passed over, and whether the loop ends with it.
  unfoldable pub tree_file : Bytes → Bytes → Action (W × SyncResult) Bool
  unfolding copy_file
  tree_file p target (w, r) =
      let (res, w') = if opts.dry_run then (ok tt, w) else copy_file same S D p target w in
      elim res [
        | ok _ ↦ (ok false, (w', record r { copied = suc r.copied }))
        | err e ↦
            let r' = add_error p (codes "copy") e r in (ok (should_stop opts r'.errors), (w', r'))
        | panic ↦ (panic, (w', r))
      ]

  -- The loop of `TreeCopy`, from the moment `n` on: the error is that of the context.
  unfoldable pub tree_loop : ℕ → List Bytes → Action (W × SyncResult) Context
  unfolding is_passed tree_file tree_relative
  tree_loop n [] s = (ok none, s)
  tree_loop n (p ∷ ps) (w, r) = elim (env.context n) [
    | some e ↦ (ok (some e), (w, r))
    | none ↦
        let target = path_join dst (tree_relative src p) in
        let (passed, w') = is_passed target w in
        elim passed [
          | err e ↦ (err e, (w', r))
          | panic ↦ (panic, (w', r))
          | ok true ↦ tree_loop (suc n) ps (w', record r { skipped = suc r.skipped })
          | ok false ↦
              let (res, s) = tree_file p target (w', r) in
              elim res [
                | ok true ↦ (ok none, s)
                | ok false ↦ tree_loop (suc n) ps s
                | err e ↦ (err e, s)
                | panic ↦ (panic, s)
              ]
        ]
  ]

  abbrev pub with_tree_result :
      Result Context × (W × SyncResult) → Result (SyncResult × Context) × W
  with_tree_result (ok c, (w, r)) = (ok (r, c), w)
  with_tree_result (err e, (w, r)) = (err e, w)
  with_tree_result (panic, (w, r)) = (panic, w)

  -- `TreeCopy`
  unfoldable pub tree_copy : Action W (SyncResult × Context)
  unfolding tree_loop
  tree_copy = S.list src >>= λ paths.
      λ w. with_tree_result (tree_loop 0 paths (w, empty_result opts.dry_run))
