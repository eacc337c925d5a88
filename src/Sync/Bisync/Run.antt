-- ===== src/Sync/Bisync/Run.antt =====
-- sync/bisync.go: the loop over the actions, and `Bisync`.
use omnistorage.Base.{
  ℕ, zero, suc, Bytes, Bool, true, false, List, [], ◌∷◌, ◌++◌, codes, none, some, Error, Result, ok,
  err, panic, Context, if◌then◌else◌, length, leb, wrapped,
}
use omnistorage.Base.Int.{pos, negsuc, ◌+ℤ◌}
use omnistorage.Base.Action.{Action}
use omnistorage.Backends.{Backend}
use omnistorage.Sync.Options.{FileInfo, FileError}
use omnistorage.Sync.Listing.{Environment, list_files}
use omnistorage.Sync.Conflict.{
  Direction, to1, to2, both, nowhere, Resolution, copy_12, copy_21, resolve_conflict,
}
use omnistorage.Sync.Bisync.Options.{
  BisyncOptions, Conflict, BisyncResult, set_defaults, scan_options, copy_options,
}
use omnistorage.Sync.Bisync.Plan.{BisyncAction, copy_to2, copy_to1, in_conflict, plan_bisync}

abbrev pub add_error : Bytes → Bytes → Error → BisyncResult → BisyncResult
add_error p op e r = record r {
  errors = r.errors ++ (record { path = p; op = op; error = e } ∷ []);
}

-- `*copiedCounter++`, and the bytes.
abbrev pub add_copied : Bool → FileInfo → BisyncResult → BisyncResult
add_copied true f r = record r {
  copied_to_path2 = suc r.copied_to_path2;
  bytes_transferred = r.bytes_transferred +ℤ f.size;
}
add_copied false f r = record r {
  copied_to_path1 = suc r.copied_to_path1;
  bytes_transferred = r.bytes_transferred +ℤ f.size;
}

-- What a resolution without an error counts as, outside of a dry run.
unfoldable pub add_updated : Direction → FileInfo → FileInfo → BisyncResult → BisyncResult
add_updated to1 f g r = record r {
  updated_in_path1 = suc r.updated_in_path1;
  bytes_transferred = r.bytes_transferred +ℤ g.size;
}
add_updated to2 f g r = record r {
  updated_in_path2 = suc r.updated_in_path2;
  bytes_transferred = r.bytes_transferred +ℤ f.size;
}
add_updated both f g r = record r {
  updated_in_path1 = suc r.updated_in_path1;
  updated_in_path2 = suc r.updated_in_path2;
  bytes_transferred = r.bytes_transferred +ℤ (f.size +ℤ g.size);
}
add_updated nowhere f g r = r

abbrev pub conflict_of : FileInfo → FileInfo → Resolution → Conflict
conflict_of f g res = record {
  path = f.path;
  path1_info = f;
  path2_info = g;
  resolution = res.label;
  error = res.failure;
}

-- What is noted of a conflict that was resolved, or could not be.
unfoldable pub note_conflict : Bool → FileInfo → FileInfo → Resolution → BisyncResult → BisyncResult
unfolding add_updated
note_conflict dry f g res r =
    let noted : BisyncResult = elim res.failure [
      | some e ↦ add_error f.path (codes "conflict") e r
      | none ↦ if dry then r else add_updated res.direction f g r
    ] in
    record noted { conflicts = r.conflicts ++ (conflict_of f g res ∷ []) }

-- `maxErrorsReached`
unfoldable pub max_errors_reached : BisyncOptions → List FileError → Bool
max_errors_reached opts errors = elim opts.max_errors [
  | negsuc n ↦ false
  | pos n ↦ elim n [ zero ↦ false | suc m ↦ leb (suc m) (length errors) ]
]

abbrev pub name_of : Bool → Bytes
name_of to_path2 = if to_path2 then codes "copy-to-path2" else codes "copy-to-path1"

-- `same` says whether the backends are the same.
module _ {W : Type 0} (env : Environment) (opts : BisyncOptions) (same : Bool) (one two : Backend W)
    (path1 path2 : Bytes) where
  abbrev pub copy_to : Bool → Bytes → Action W (Unit {0})
  copy_to true p = copy_12 env (copy_options opts) same one two path1 path2 opts.conflict_suffix p p
  copy_to false p =
      copy_21 env (copy_options opts) same one two path1 path2 opts.conflict_suffix p p

  -- `copyDirection`, and whether the loop ends with it.
  unfoldable pub copy_direction : Bool → FileInfo → Action (W × BisyncResult) Bool
  unfolding max_errors_reached
  copy_direction to_path2 f (w, r) = elim opts.dry_run [
    | true ↦ (ok false, (w, add_copied to_path2 f r))
    | false ↦
        let (res, w') = copy_to to_path2 f.path w in
        elim res [
          | ok _ ↦ (ok false, (w', add_copied to_path2 f r))
          | err e ↦
              let r' = add_error f.path (name_of to_path2) e r in
              (ok (max_errors_reached opts r'.errors), (w', r'))
          | panic ↦ (panic, (w', r))
        ]
  ]

  unfoldable pub handle_conflict : FileInfo → FileInfo → Action (W × BisyncResult) Bool
  unfolding note_conflict
  handle_conflict f g (w, r) =
      let (res, w') =
        resolve_conflict env (copy_options opts) same one two path1 path2 opts.conflict_suffix
          opts.conflict_strategy opts.dry_run f g w in
      elim res [
        | ok resolution ↦ (ok false, (w', note_conflict opts.dry_run f g resolution r))
        | err e ↦ (err e, (w', r))
        | panic ↦ (panic, (w', r))
      ]

  -- The `switch` on the direction.
  unfoldable pub act : BisyncAction → Action (W × BisyncResult) Bool
  unfolding copy_direction handle_conflict
  act (copy_to2 f) = copy_direction true f
  act (copy_to1 g) = copy_direction false g
  act (in_conflict f g) = handle_conflict f g

  -- `actionLoop`, from the moment `n` on: the error is that of the context.
  unfoldable pub action_loop : ℕ → List BisyncAction → Action (W × BisyncResult) Context
  unfolding act
  action_loop n [] s = (ok none, s)
  action_loop n (a ∷ actions) s = elim (env.context n) [
    | some e ↦ (ok (some e), s)
    | none ↦
        let (res, s') = act a s in
        elim res [
          | ok true ↦ (ok none, s')
          | ok false ↦ action_loop (suc n) actions s'
          | err e ↦ (err e, s')
          | panic ↦ (panic, s')
        ]
  ]

abbrev pub new_result : Bool → ℕ → BisyncResult
new_result dry skipped = record {
  copied_to_path2 = 0;
  copied_to_path1 = 0;
  updated_in_path2 = 0;
  updated_in_path1 = 0;
  deleted_from_path1 = 0;
  deleted_from_path2 = 0;
  conflicts = [];
  skipped = skipped;
  errors = [];
  bytes_transferred = pos 0;
  dry_run = dry;
}

module _ {W : Type 0} (env : Environment) (given : BisyncOptions) (same : Bool)
    (one two : Backend W) (path1 path2 : Bytes) where
  abbrev with_result : Result Context × (W × BisyncResult) → Result (BisyncResult × Context) × W
  with_result (ok c, (w, r)) = (ok (r, c), w)
  with_result (err e, (w, r)) = (err e, w)
  with_result (panic, (w, r)) = (panic, w)

  -- What is done with the two listings.
  unfoldable pub run_plan : List FileInfo → List FileInfo → Action W (BisyncResult × Context)
  unfolding action_loop set_defaults scan_options plan_bisync
  run_plan files1 files2 w =
      let opts = set_defaults given in
      let plan = plan_bisync env.times_equal (scan_options opts) files1 files2 in
      with_result (
        action_loop env opts same one two path1 path2 0 plan.actions
          (w, new_result opts.dry_run plan.skipped))

  -- `Bisync`: an error of a listing goes to the caller without a result, and one of the context
  -- with the result so far.
  unfoldable pub bisync : Action W (BisyncResult × Context)
  unfolding run_plan set_defaults scan_options
  bisync w =
      let scan = scan_options (set_defaults given) in
      let (res1, w1) = list_files env scan one path1 w in
      elim res1 [
        | err e ↦ (err (wrapped e (codes "scanning path1")), w1)
        | panic ↦ (panic, w1)
        | ok files1 ↦
            let (res2, w2) = list_files env scan two path2 w1 in
            elim res2 [
              | err e ↦ (err (wrapped e (codes "scanning path2")), w2)
              | panic ↦ (panic, w2)
              | ok files2 ↦ run_plan files1 files2 w2
            ]
      ]
