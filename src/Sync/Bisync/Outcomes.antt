-- ===== src/Sync/Bisync/Outcomes.antt =====
-- What a caller of `Bisync` may conclude from its options and its result.
use mathlib.Core.Path.{subst}
use omnistorage.Base.{
  ℕ, ◌+◌, Bytes, ◌≡◌, sym, ap, ◌∙◌, Bool, true, false, List, [], none, Result, ok, Context, length,
  arith, inl, inr, Result-cases,
}
use omnistorage.Backends.{Backend}
use omnistorage.Sync.Options.{FileInfo}
use omnistorage.Sync.Listing.{Environment, list_files}
use omnistorage.Sync.Check.{plain_map}
use omnistorage.Sync.Bisync.Options.{
  BisyncOptions, BisyncResult, set_defaults, scan_options, total_copied, total_updated,
}
use omnistorage.Sync.Bisync.Plan.{Scan, plan_bisync}
use omnistorage.Sync.Bisync.PlanLaws.{only_in, plan_bisync_exact}
use omnistorage.Sync.Bisync.Run.{action_loop, new_result, run_plan, bisync}
use omnistorage.Sync.Bisync.Acts.{to2_count, to1_count, conflict_count, counts_sum}
use omnistorage.Sync.Bisync.Effects.{Performed, action_loop-Performed}
use omnistorage.Sync.Bisync.Loop.{action_loop-Looped}

module _ {W : Type 0} (env : Environment) (given : BisyncOptions) (same : Bool)
    (one two : Backend W) (path1 path2 : Bytes) (s : W) where
  -- The options with their defaults, and those of the two listings.
  abbrev pub effective : BisyncOptions
  effective = set_defaults given

  abbrev pub first_scan : Result (List FileInfo) × W
  first_scan = list_files env (scan_options effective) one path1 s

  abbrev pub second_scan : Result (List FileInfo) × W
  second_scan = list_files env (scan_options effective) two path2 first_scan.1

  abbrev pub plan : List FileInfo → List FileInfo → Scan
  plan = plan_bisync env.times_equal (scan_options effective)

  -- The two listings, and then the actions of what they found.
  record Ran (r : BisyncResult) (c : Context) : Type 0 where
    files1 : List FileInfo
    files2 : List FileInfo
    listed1 : first_scan.0 ≡ ok files1
    listed2 : second_scan.0 ≡ ok files2
    looped :
        action_loop env effective same one two path1 path2 0
          (plan files1 files2).actions
          (second_scan.1, new_result effective.dry_run (plan files1 files2).skipped)
        ≡ (ok c, ((bisync env given same one two path1 path2 s).1, r))

  bisync-Ran :
      (r : BisyncResult) (c : Context)
      → (bisync env given same one two path1 path2 s).0 ≡ ok (r, c)
      → Ran r c
  bisync-Ran r c h = elim (Result-cases first_scan.0) [
    | inl (files1, e1) ↦ elim (Result-cases second_scan.0) [
      | inl (files2, e2) ↦
          let start = new_result effective.dry_run (plan files1 files2).skipped in
          let loop =
            action_loop env effective same one two path1 path2 0 (plan files1 files2).actions
              (second_scan.1, start) in
          let same_end : bisync env given same one two path1 path2 s
              ≡ run_plan env given same one two path1 path2 files1 files2 second_scan.1 =
            unfold bisync in ground arith in
          record {
            files1 = files1;
            files2 = files2;
            listed1 = e1;
            listed2 = e2;
            looped = elim (Result-cases loop.0) [
              | inl (c', k) ↦ unfold run_plan in ground arith
              | inr (inl (x, k)) ↦ absurd (unfold run_plan in ground arith)
              | inr (inr k) ↦ absurd (unfold run_plan in ground arith)
            ];
          }
      | inr (inl (x, e)) ↦ absurd (unfold bisync in ground arith)
      | inr (inr e) ↦ absurd (unfold bisync in ground arith)
    ]
    | inr (inl (x, e)) ↦ absurd (unfold bisync in ground arith)
    | inr (inr e) ↦ absurd (unfold bisync in ground arith)
  ]

  -- A dry run that gives a result leaves the world as the two listings left it, and has updated
  -- nothing; while the context lives, it counts all copies that there are to make, and names all
  -- conflicts.
  pub bisync_dry :
      (r : BisyncResult) (c : Context)
      → given.dry_run ≡ true
      → (bisync env given same one two path1 path2 s).0 ≡ ok (r, c)
      → ((bisync env given same one two path1 path2 s).1 ≡ second_scan.1)
        × (total_updated r ≡ 0)
        × (files1 : List FileInfo) × (files2 : List FileInfo) × (first_scan.0 ≡ ok files1)
        × (second_scan.0 ≡ ok files2)
        × (((k : ℕ) → env.context k ≡ none)
            → (total_copied r + length r.conflicts ≡ length (plan files1 files2).actions)
              × (r.skipped ≡ (plan files1 files2).skipped))
  unfolding set_defaults
  bisync_dry r c dry done =
      let ran = bisync-Ran r c done in
      let p = plan ran.files1 ran.files2 in
      let start = new_result effective.dry_run p.skipped in
      let looped =
        action_loop-Looped env effective same one two path1 path2 0 p.actions second_scan.1 start c
          (ap (λ t. t.0) ran.looped) in
      let (still, updates, all) = looped.is_dry dry in
      (
        sym (ap (λ t. t.1.0) ran.looped) ∙ still,
        sym (ap (λ t. total_updated t.1.1) ran.looped) ∙ updates,
        ran.files1,
        ran.files2,
        ran.listed1,
        ran.listed2,
        λ live.
            let (_, n) = all live in
            (
              ground (arith, ran.looped, n.second, n.first, n.clashes, counts_sum p.actions),
              ground (arith, ran.looped, n.passed),
            ),
      )

  -- While the context lives and it is no dry run, a result of `Bisync` without errors means that all
  -- actions of the plan were performed, and nothing else changed the state behind the listings: one
  -- after the other, each file that one side only has was copied from that side to the other without
  -- an error, and each conflict was resolved without one. Nothing is deleted, also with
  -- `DeleteMissing`. The counters are the numbers of these actions, and each path that either side
  -- has, directories aside, is counted as copied, is a conflict that is listed, or is skipped.
  pub bisync_complete :
      (r : BisyncResult) (c : Context)
      → ((k : ℕ) → env.context k ≡ none)
      → given.dry_run ≡ false
      → (bisync env given same one two path1 path2 s).0 ≡ ok (r, c)
      → r.errors ≡ []
      → (c ≡ none)
        × (files1 : List FileInfo) × (files2 : List FileInfo) × (first_scan.0 ≡ ok files1)
        × (second_scan.0 ≡ ok files2)
        × Performed env effective same one two path1 path2
            (plan files1 files2).actions
            second_scan.1
            (bisync env given same one two path1 path2 s).1
        × (r.copied_to_path2 ≡ to2_count (plan files1 files2).actions)
        × (r.copied_to_path1 ≡ to1_count (plan files1 files2).actions)
        × (length r.conflicts ≡ conflict_count (plan files1 files2).actions)
        × (total_copied r + length r.conflicts + r.skipped
            ≡ length (plain_map files1 []) + only_in (plain_map files1 []) (plain_map files2 []))
  unfolding set_defaults
  bisync_complete r c live real done clean =
      let ran = bisync-Ran r c done in
      let p = plan ran.files1 ran.files2 in
      let start = new_result effective.dry_run p.skipped in
      let x = ran.looped in
      let looped =
        action_loop-Looped env effective same one two path1 path2 0 p.actions second_scan.1 start c
          (ap (λ t. t.0) x) in
      let (over, n) = looped.counted live (rw (x, clean) (omega arith)) in
      let (_, count) =
        plan_bisync_exact env.times_equal (scan_options effective) ran.files1 ran.files2 [] in
      (
        over,
        ran.files1,
        ran.files2,
        ran.listed1,
        ran.listed2,
        subst (Performed env effective same one two path1 path2 p.actions second_scan.1)
            (ap (λ t. t.1.0) x)
            (action_loop-Performed env effective same one two path1 path2 0 p.actions second_scan.1
              start c live real (ap (λ t. t.0) x) (rw (x, clean) (omega arith))),
        ground (arith, x, n.second),
        ground (arith, x, n.first),
        ground (arith, x, n.clashes),
        ground (arith, x, n.second, n.first, n.clashes, n.passed, count, counts_sum p.actions),
      )
