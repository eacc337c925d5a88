-- ===== src/Sync/Conflict.antt =====
-- sync/bisync.go, `resolveConflict`: what is done about a file that differs on the two sides.
use omnistorage.Base.{
  ◌≡◌, arith, Bytes, Bool, true, false, List, [], ◌∷◌, ◌++◌, codes, Option, none, some, Error,
  message, ok, err, panic, if◌then◌else◌, ltb,
}
use omnistorage.Base.Int.{ltb_ℤ}
use omnistorage.Base.Action.{Action, pure}
use omnistorage.Paths.Clean.{path_join}
use omnistorage.Backends.{Backend}
use omnistorage.Sync.Options.{Options, FileInfo}
use omnistorage.Sync.Listing.{Environment, copy_file_with_context}

-- The strategies, and any other value of the type.
pub data ConflictStrategy : Type 0 where
  newer_wins larger_wins source_wins dest_wins keep_both skip error : ConflictStrategy
  unknown_strategy : ConflictStrategy

-- The direction "to1", "to2" or "both", or the empty text.
pub data Direction : Type 0 where
  to1 to2 both nowhere : Direction

pub record Resolution : Type 0 where
  pub label : Bytes
  pub direction : Direction
  pub failure : Option Error

module _ {W : Type 0} where
  -- Copies one after the other, up to the first that fails.
  unfoldable pub run_copies : List (Action W (Unit {0})) → Action W (Option Error)
  run_copies [] s = (ok none, s)
  run_copies (copy ∷ copies) s =
      let (r, s') = copy s in
      elim r [ ok _ ↦ run_copies copies s' | err e ↦ (ok (some e), s') | panic ↦ (panic, s') ]

  -- `if !opts.DryRun { copies }`, and what is returned behind them or at the first error.
  unfoldable pub resolved_by :
      Bool → Bytes → Direction → List (Action W (Unit {0})) → Action W Resolution
  unfolding run_copies
  resolved_by dry label direction copies s =
      let fine : Resolution = record { label = label; direction = direction; failure = none } in
      let (r, s') = run_copies copies s in
      if dry then (ok fine, s) else elim r [
        | ok none ↦ (ok fine, s')
        | ok (some e) ↦ (ok (record { label = label; direction = nowhere; failure = some e }), s')
        | err e ↦ (err e, s')
        | panic ↦ (panic, s')
      ]

-- `copyFileWithContext` from one place to another; `one` and `two` are the backends, and `same`
-- says whether they are the same.
module _ {W : Type 0} (env : Environment) (opts : Options) (same : Bool) (one two : Backend W)
    (path1 path2 suffix : Bytes) where
  abbrev pub copy_12 : Bytes → Bytes → Action W (Unit {0})
  copy_12 p q = copy_file_with_context env opts same one (path_join path1 p) two (path_join path2 q)

  abbrev pub copy_21 : Bytes → Bytes → Action W (Unit {0})
  copy_21 p q = copy_file_with_context env opts same two (path_join path2 p) one (path_join path1 q)

  abbrev copy_11 : Bytes → Bytes → Action W (Unit {0})
  copy_11 p q = copy_file_with_context env opts true one (path_join path1 p) one (path_join path1 q)

  abbrev copy_22 : Bytes → Bytes → Action W (Unit {0})
  copy_22 p q = copy_file_with_context env opts true two (path_join path2 p) two (path_join path2 q)

  unfoldable pub resolve_conflict :
      ConflictStrategy → Bool → FileInfo → FileInfo → Action W Resolution
  unfolding resolved_by
  resolve_conflict newer_wins dry f g =
      if ltb g.mod_time f.mod_time
      then resolved_by dry (codes "newer-wins:path1") to2 (copy_12 f.path g.path ∷ [])
      else resolved_by dry (codes "newer-wins:path2") to1 (copy_21 g.path f.path ∷ [])
  resolve_conflict larger_wins dry f g =
      if ltb_ℤ g.size f.size
      then resolved_by dry (codes "larger-wins:path1") to2 (copy_12 f.path g.path ∷ [])
      else resolved_by dry (codes "larger-wins:path2") to1 (copy_21 g.path f.path ∷ [])
  resolve_conflict source_wins dry f g =
      resolved_by dry (codes "source-wins") to2 (copy_12 f.path g.path ∷ [])
  resolve_conflict dest_wins dry f g =
      resolved_by dry (codes "dest-wins") to1 (copy_21 g.path f.path ∷ [])
  resolve_conflict keep_both dry f g =
      let aside = f.path ++ suffix in
      if ltb f.mod_time g.mod_time
      then resolved_by dry (codes "keep-both") both
          (copy_11 f.path aside ∷ copy_21 g.path f.path ∷ copy_12 aside aside ∷ [])
      else resolved_by dry (codes "keep-both") both
          (copy_22 g.path aside ∷ copy_12 f.path g.path ∷ copy_21 aside aside ∷ [])
  resolve_conflict skip dry f g =
      pure (record { label = codes "skipped"; direction = nowhere; failure = none })
  resolve_conflict error dry f g = pure (record {
    label = codes "error";
    direction = nowhere;
    failure = some (message "conflict detected" f.path);
  })
  resolve_conflict unknown_strategy dry f g = pure (record {
    label = codes "unknown-strategy";
    direction = nowhere;
    failure = some (message "unknown conflict strategy" []);
  })

  -- A dry run of any strategy changes nothing. Otherwise, a resolution that names the second side
  -- is one copy from the first to the second that succeeded, and the other way round; and one that
  -- names no side and no error has changed nothing.
  pub resolve_conflict_cases :
      (strategy : ConflictStrategy) (dry : Bool) (f g : FileInfo) (s : W) (r : Resolution)
      → (resolve_conflict strategy dry f g s).0 ≡ ok r
      → (dry ≡ true → (resolve_conflict strategy dry f g s).1 ≡ s)
        × (dry ≡ false
            → r.direction ≡ to2
            → ((copy_12 f.path g.path s).0 ≡ ok tt)
              × ((resolve_conflict strategy dry f g s).1 ≡ (copy_12 f.path g.path s).1))
        × (dry ≡ false
            → r.direction ≡ to1
            → ((copy_21 g.path f.path s).0 ≡ ok tt)
              × ((resolve_conflict strategy dry f g s).1 ≡ (copy_21 g.path f.path s).1))
        × (dry ≡ false
            → r.direction ≡ nowhere
            → r.failure ≡ none
            → (resolve_conflict strategy dry f g s).1 ≡ s)
  unfolding resolve_conflict
  resolve_conflict_cases newer_wins dry f g s r h = ground arith
  resolve_conflict_cases larger_wins dry f g s r h = ground arith
  resolve_conflict_cases source_wins dry f g s r h = ground arith
  resolve_conflict_cases dest_wins dry f g s r h = ground arith
  resolve_conflict_cases keep_both dry f g s r h = ground arith
  resolve_conflict_cases skip dry f g s r h = ground arith
  resolve_conflict_cases error dry f g s r h = ground arith
  resolve_conflict_cases unknown_strategy dry f g s r h = ground arith
