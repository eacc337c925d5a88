-- ===== src/Sync/Run.antt =====
-- sync/sync.go: `Sync` and `CopyDir`. The actions go to the workers through a channel, in their
-- order, so a run is modelled as one in which no two transfers overlap, which is every run of a
-- single worker. Go visits the paths to delete in the order of a map, here that of the listing.
use omnistorage.Base.{
  ℕ, zero, suc, Bytes, bytes_eq, Bool, true, false, List, [], ◌∷◌, ◌++◌, codes, none, some, Error,
  Result, ok, err, panic, Context, if◌then◌else◌, length, leb,
}
use omnistorage.Base.Int.{pos, negsuc, ◌+ℤ◌}
use omnistorage.Base.Action.{Action, ◌>>=◌}
use omnistorage.Paths.Clean.{path_join}
use omnistorage.Backends.{Backend}
use omnistorage.Sync.Options.{Options, FileError, SyncResult}
use omnistorage.Sync.Compare.{CopyAction, Plan, file_map, compare_files, to_delete}
use omnistorage.Sync.Listing.{Environment, list_files, copy_file_with_context}

-- `opts.MaxErrors > 0 && len(result.Errors) >= opts.MaxErrors`
unfoldable pub should_stop : Options → List FileError → Bool
should_stop opts errors = elim opts.max_errors [
  | negsuc n ↦ false
  | pos n ↦ elim n [ zero ↦ false | suc m ↦ leb (suc m) (length errors) ]
]

abbrev pub add_error : Bytes → Bytes → Error → SyncResult → SyncResult
add_error p op e r = record r {
  errors = r.errors ++ (record { path = p; op = op; error = e } ∷ []);
}

-- A file that is transferred, or would be in a dry run.
abbrev pub add_file : CopyAction → SyncResult → SyncResult
add_file a r = record r {
  copied = if a.is_update then r.copied else suc r.copied;
  updated = if a.is_update then suc r.updated else r.updated;
  bytes_transferred = r.bytes_transferred +ℤ a.file.size;
}

abbrev pub add_deleted : SyncResult → SyncResult
add_deleted r = record r { deleted = suc r.deleted }

module _ {W : Type 0} (env : Environment) (opts : Options) (same : Bool) (S D : Backend W)
    (src dst : Bytes) where
  -- The worker, from the moment `n` on.
  unfoldable pub transfer : ℕ → List CopyAction → Action (W × SyncResult) (Unit {0})
  transfer n [] s = (ok tt, s)
  transfer n (a ∷ actions) (w, r) =
      let path = a.file.path in
      elim (env.context n) [
        | some _ ↦ (ok tt, (w, r))
        | none ↦ elim opts.dry_run [
          | true ↦ transfer (suc n) actions (w, add_file a r)
          | false ↦
              let (res, w') =
                copy_file_with_context env opts same S (path_join src path) D (path_join dst path)
                  w in
              elim res [
                | ok _ ↦ transfer (suc n) actions (w', add_file a r)
                | err e ↦
                    let r' = add_error path (codes "copy") e r in
                    elim (should_stop opts r'.errors) [
                      | true ↦ (ok tt, (w', r'))
                      | false ↦ transfer (suc n) actions (w', r')
                    ]
                | panic ↦ (panic, (w', r))
              ]
        ]
      ]

  -- The loop of deletions, from the moment `n` on: the error is that of the context.
  unfoldable pub delete_loop : ℕ → List Bytes → Action (W × SyncResult) Context
  delete_loop n [] s = (ok none, s)
  delete_loop n (p ∷ ps) (w, r) = elim (env.context n) [
    | some e ↦ (ok (some e), (w, r))
    | none ↦ elim opts.dry_run [
      | true ↦ delete_loop (suc n) ps (w, add_deleted r)
      | false ↦
          let (res, w') = D.delete (path_join dst p) w in
          elim res [
            | ok _ ↦ delete_loop (suc n) ps (w', add_deleted r)
            | err e ↦
                let r' = add_error p (codes "delete") e r in
                elim (should_stop opts r'.errors) [
                  | true ↦ (ok none, (w', r'))
                  | false ↦ delete_loop (suc n) ps (w', r')
                ]
            | panic ↦ (panic, (w', r))
          ]
    ]
  ]

  -- What is done with a plan.
  unfoldable pub execute : Plan → Action (W × SyncResult) Context
  execute p s =
      let moment = length p.to_copy in
      (transfer 0 p.to_copy >>= λ _. λ t. elim (env.context moment) [
        | some e ↦ (ok (some e), t)
        | none ↦ delete_loop (suc moment) (to_delete opts p) t
      ])
        s

  abbrev pub new_result : Plan → SyncResult
  new_result p = record {
    copied = 0;
    updated = 0;
    deleted = 0;
    skipped = p.skipped;
    errors = [];
    bytes_transferred = pos 0;
    dry_run = opts.dry_run;
  }

  abbrev pub with_result : Result Context × (W × SyncResult) → Result (SyncResult × Context) × W
  with_result (ok c, (w, r)) = (ok (r, c), w)
  with_result (err e, (w, r)) = (err e, w)
  with_result (panic, (w, r)) = (panic, w)

  -- `Sync`: an error of a listing goes to the caller without a result, and one of the context
  -- with the result so far.
  unfoldable pub sync : Action W (SyncResult × Context)
  sync = do
    src_files ← list_files env opts S src
    dst_files ← list_files env opts D dst
    let p = compare_files env.times_equal opts src_files (file_map dst_files [])
    λ w. with_result (execute p (w, new_result p))
