-- ===== src/Sync/Outcomes.antt =====
-- What a caller of `Sync` may conclude from its options and its result.
use mathlib.Core.Path.{subst}
use omnistorage.Base.{
  ℕ, ◌+◌, ◌≤◌, Bytes, ◌≡◌, refl, sym, ap, ◌∙◌, Bool, true, false, List, [], none, Result, ok, err,
  panic, Context, length, arith,
}
use omnistorage.Base.Action.{◌>>=◌, >>=-eq-ok}
use omnistorage.Backends.{Backend}
use omnistorage.Sync.Options.{Options, FileInfo, SyncResult}
use omnistorage.Sync.Compare.{Plan, file_map, compare_files, to_delete}
use omnistorage.Sync.CompareLaws.{plain_count, count_lem}
use omnistorage.Sync.Listing.{Environment, list_files}
use omnistorage.Sync.Run.{execute, new_result, with_result, sync}
use omnistorage.Sync.TransferLaws.{Copied}
use omnistorage.Sync.RunLaws.{Deleted, execute_dry, execute-Done, execute_complete}

module _ {W : Type 0} (env : Environment) (opts : Options) (same : Bool) (S D : Backend W)
    (src dst : Bytes) (s : W) where
  abbrev pub plan : List FileInfo → List FileInfo → Plan
  plan fs ds = compare_files env.times_equal opts fs (file_map ds [])

  -- The two listings, and then the plan of what they found is executed.
  pub record Ran (r : SyncResult) (c : Context) : Type 0 where
    pub src_files : List FileInfo
    pub dst_files : List FileInfo
    pub src_listed : (list_files env opts S src s).0 ≡ ok src_files
    pub dst_listed : (list_files env opts D dst (list_files env opts S src s).1).0 ≡ ok dst_files
    pub before : W
    pub listed : (list_files env opts D dst (list_files env opts S src s).1).1 ≡ before
    pub executed :
        execute env opts same S D src dst
          (plan src_files dst_files)
          (before, new_result env opts same S D src dst (plan src_files dst_files))
        ≡ (ok c, ((sync env opts same S D src dst s).1, r))

  with_result-eq-ok :
      (t : Result Context × (W × SyncResult)) (r : SyncResult) (c : Context)
      → (with_result env opts same S D src dst t).0 ≡ ok (r, c)
      → t ≡ (ok c, ((with_result env opts same S D src dst t).1, r))
  with_result-eq-ok (ok c', (w, r')) r c h = cc
  with_result-eq-ok (err e, (w, r')) r c h = absurd cc
  with_result-eq-ok (panic, (w, r')) r c h = absurd cc

  pub sync-Ran :
      (r : SyncResult) (c : Context) → (sync env opts same S D src dst s).0 ≡ ok (r, c) → Ran r c
  unfolding sync
  sync-Ran r c h =
      let (fs, e, eq) =
        >>=-eq-ok (list_files env opts S src)
          (λ fs. list_files env opts D dst >>= λ ds. λ w. with_result env opts same S D src dst (
            execute env opts same S D src dst (plan fs ds)
              (w, new_result env opts same S D src dst (plan fs ds))))
          s h in
      let s1 = (list_files env opts S src s).1 in
      let (ds, e1, eq1) =
        >>=-eq-ok (list_files env opts D dst)
          (λ ds. λ w. with_result env opts same S D src dst (
            execute env opts same S D src dst (plan fs ds)
              (w, new_result env opts same S D src dst (plan fs ds))))
          s1 (sym (ap (λ t. t.0) eq) ∙ h) in
      let w = (list_files env opts D dst s1).1 in
      let t =
        execute env opts same S D src dst (plan fs ds)
          (w, new_result env opts same S D src dst (plan fs ds)) in
      record {
        src_files = fs;
        dst_files = ds;
        src_listed = e;
        dst_listed = e1;
        before = w;
        listed = refl;
        executed =
            with_result-eq-ok t r c (sym (ap (λ t. t.0) (eq ∙ eq1)) ∙ h)
            ∙ ap (λ w. (ok c, (w, r))) (ap (λ t. t.1) (sym (eq ∙ eq1)));
      }

  -- A dry run that gives a result leaves the world as the two listings left it, and has no errors.
  pub sync_dry :
      (r : SyncResult) (c : Context)
      → opts.dry_run ≡ true
      → (sync env opts same S D src dst s).0 ≡ ok (r, c)
      → ((sync env opts same S D src dst s).1
          ≡ (list_files env opts D dst (list_files env opts S src s).1).1)
        × (r.errors ≡ [])
  sync_dry r c h done =
      let ran = sync-Ran r c done in
      let p = plan ran.src_files ran.dst_files in
      ground (
        arith,
        ran.executed,
        ran.listed,
        execute_dry env opts same S D src dst p (ran.before, new_result env opts same S D src dst p)
            h,
      )

  -- In a run in which no two transfers overlap, that is no dry run, and while the context lives: a
  -- result without errors means that the whole plan of the two listings was done. Behind the
  -- listings, each file that was to be copied was copied from the source to the destination without
  -- an error, in the order of the plan, and then each path that was to be deleted was deleted from
  -- the destination, and nothing else changed the state; and each file of the source, directories
  -- aside, is counted as copied, updated or skipped, and each deletion as one.
  pub sync_complete :
      (r : SyncResult) (c : Context)
      → ((k : ℕ) → env.context k ≡ none)
      → opts.dry_run ≡ false
      → (sync env opts same S D src dst s).0 ≡ ok (r, c)
      → r.errors ≡ []
      → (c ≡ none)
        × (fs : List FileInfo) × (ds : List FileInfo) × ((list_files env opts S src s).0 ≡ ok fs)
        × ((list_files env opts D dst (list_files env opts S src s).1).0 ≡ ok ds)
        × (middle : W) × Copied env opts same S D src dst
            (plan fs ds).to_copy
            (list_files env opts D dst (list_files env opts S src s).1).1
            middle
        × Deleted env opts same S D src dst
            (to_delete opts (plan fs ds))
            middle
            (sync env opts same S D src dst s).1
        × (r.copied + r.updated ≡ length (plan fs ds).to_copy)
        × (r.copied + r.updated + r.skipped ≡ plain_count fs)
        × (r.deleted ≡ length (to_delete opts (plan fs ds)))
  sync_complete r c live real done clean =
      let ran = sync-Ran r c done in
      let p = plan ran.src_files ran.dst_files in
      let first = new_result env opts same S D src dst p in
      let x = ran.executed in
      let none_yet : length (execute env opts same S D src dst p (ran.before, first)).1.1.errors
          ≤ 0 =
        rw (x, clean) (omega arith) in
      let (middle, copied, deleted) =
        execute-Done env opts same S D src dst p ran.before first c live real (ap (λ t. t.0) x)
          none_yet in
      let (live_end, copies, deletions, skips) =
        execute_complete env opts same S D src dst p ran.before first c live (ap (λ t. t.0) x)
          none_yet in
      let all_counted = count_lem env.times_equal opts ran.src_files (file_map ran.dst_files []) in
      (
        live_end,
        ran.src_files,
        ran.dst_files,
        ran.src_listed,
        ran.dst_listed,
        middle,
        subst (λ w. Copied env opts same S D src dst p.to_copy w middle) (sym ran.listed) copied,
        subst (Deleted env opts same S D src dst (to_delete opts p) middle) (ap (λ t. t.1.0) x)
            deleted,
        ground (arith, x, copies),
        ground (arith, x, copies, skips, all_counted),
        ground (arith, x, deletions),
      )
