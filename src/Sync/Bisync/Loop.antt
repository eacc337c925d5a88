-- ===== src/Sync/Bisync/Loop.antt =====
-- The loop over the actions, from its start to its end.
use omnistorage.Base.{
  ℕ, suc, ◌+◌, ◌≤◌, Bytes, ◌≡◌, refl, ◌∙◌, Bool, true, false, List, [], ◌∷◌, ◌++◌, none, some, ok,
  Context, length, length-append, codes, message, arith, Option-cases, inl, inr, Result-cases,
}
use omnistorage.Backends.{Backend}
use omnistorage.Sync.Options.{FileInfo, FileError}
use omnistorage.Sync.Listing.{Environment}
use omnistorage.Sync.Conflict.{error, nowhere, Resolution, resolve_conflict}
use omnistorage.Sync.Bisync.Options.{BisyncOptions, BisyncResult, total_updated}
use omnistorage.Sync.Bisync.Plan.{BisyncAction, in_conflict}
use omnistorage.Sync.Bisync.Run.{note_conflict, conflict_of, handle_conflict, act, action_loop}
use omnistorage.Sync.Bisync.Acts.{Counted, Counted-trans, act-Acted}

abbrev pub all_conflicts : List (FileInfo × FileInfo) → List BisyncAction
all_conflicts [] = []
all_conflicts ((f, g) ∷ clashes) = in_conflict f g ∷ all_conflicts clashes

-- What `resolveConflict` gives with the strategy that reports conflicts.
abbrev refused : FileInfo → Resolution
refused f = record {
  label = codes "error";
  direction = nowhere;
  failure = some (message "conflict detected" f.path);
}

abbrev clash_error : FileInfo → FileError
clash_error f = record {
  path = f.path;
  op = codes "conflict";
  error = message "conflict detected" f.path;
}

abbrev with_refusal : FileInfo → FileInfo → BisyncResult → BisyncResult
with_refusal f g r = record r {
  errors = r.errors ++ (clash_error f ∷ []);
  conflicts = r.conflicts ++ (conflict_of f g (refused f) ∷ []);
}

module _ {W : Type 0} (env : Environment) (opts : BisyncOptions) (same : Bool) (one two : Backend W)
    (path1 path2 : Bytes) where
  -- What is said of the end `t` of a loop at `(w, r)`, which gave `c`.
  pub record Looped (actions : List BisyncAction) (w : W) (r : BisyncResult) (c : Context)
      (t : W × BisyncResult) : Type 0 where
    pub grows : length r.errors ≤ length t.1.errors
    pub counted :
        ((k : ℕ) → env.context k ≡ none)
        → length t.1.errors ≤ length r.errors
        → (c ≡ none) × Counted actions r t.1
    pub is_dry :
        opts.dry_run ≡ true
        → (t.0 ≡ w)
          × (total_updated t.1 ≡ total_updated r)
          × (((k : ℕ) → env.context k ≡ none) → (c ≡ none) × Counted actions r t.1)

  pub action_loop-Looped :
      (n : ℕ) (actions : List BisyncAction) (w : W) (r : BisyncResult) (c : Context)
      → (action_loop env opts same one two path1 path2 n actions (w, r)).0 ≡ ok c
      → Looped actions w r c (action_loop env opts same one two path1 path2 n actions (w, r)).1
  unfolding action_loop
  action_loop-Looped n [] w r c h =
      let all : Counted [] r r = record {
        second = omega arith;
        first = omega arith;
        clashes = omega arith;
        passed = refl;
      } in
      record {
        grows = omega arith;
        counted = λ live k. (ground arith, all);
        is_dry = λ d. (refl, refl, λ live. (ground arith, all));
      }
  action_loop-Looped n (a ∷ actions) w r c h = elim (Option-cases (env.context n)) [
    | inr (e, k) ↦
        simp (action_loop, k)
          (record {
            grows = omega arith;
            counted = λ live _. absurd (ground (arith, live n));
            is_dry = λ d. (refl, refl, λ live. absurd (ground (arith, live n)));
          })
    | inl k ↦
        let acting = act env opts same one two path1 path2 a (w, r) in
        elim (Result-cases acting.0) [
          | inl (true, e) ↦
              let done = act-Acted env opts same one two path1 path2 a w r true e in
              simp (action_loop, k, e)
                (record {
                  grows = done.grows;
                  counted = λ live clean. absurd (ground (arith, done.counted clean));
                  is_dry = λ d. absurd (ground (arith, done.is_dry d));
                })
          | inl (false, e) ↦
              let done = act-Acted env opts same one two path1 path2 a w r false e in
              let (w', r') : W × BisyncResult = acting.1 in
              let rest =
                action_loop-Looped (suc n) actions acting.1.0 acting.1.1 c (ground arith) in
              simp (action_loop, k, e)
                (record {
                  grows = omega (arith, done.grows, rest.grows);
                  counted = λ live clean.
                      let (_, here) = done.counted (omega (arith, clean, rest.grows)) in
                      let (over, there) = rest.counted live (omega (arith, clean, done.grows)) in
                      (over, Counted-trans a here there);
                  is_dry = λ d.
                      let (_, still, updates, here) = done.is_dry d in
                      let (still', updates', all) = rest.is_dry d in
                      (
                        still' ∙ still,
                        updates' ∙ updates,
                        λ live. let (over, there) = all live in (over, Counted-trans a here there),
                      );
                })
          | inr (inl (x, e)) ↦ absurd (ground arith)
          | inr (inr e) ↦ absurd (ground arith)
        ]
  ]

  refusal_lem :
      (f g : FileInfo) (w : W) (r : BisyncResult)
      → opts.conflict_strategy ≡ error
      → act env opts same one two path1 path2 (in_conflict f g) (w, r)
        ≡ (ok false, (w, with_refusal f g r))
  unfolding act handle_conflict
  refusal_lem f g w r e = rw e (unfold resolve_conflict in unfold note_conflict in refl)

  -- With the strategy that reports conflicts, each conflict is one more error, and no number of
  -- them ends the loop, whatever `MaxErrors` is and whether it is a dry run.
  pub conflicts_unbounded :
      (n : ℕ) (clashes : List (FileInfo × FileInfo)) (w : W) (r : BisyncResult)
      → opts.conflict_strategy ≡ error
      → ((k : ℕ) → env.context k ≡ none)
      → let t = action_loop env opts same one two path1 path2 n (all_conflicts clashes) (w, r) in
        (t.0 ≡ ok none) × (length t.1.1.errors ≡ length r.errors + length clashes)
  unfolding action_loop
  conflicts_unbounded n [] w r e live = (refl, omega arith)
  conflicts_unbounded n ((f, g) ∷ clashes) w r e live =
      let (over, all) = conflicts_unbounded (suc n) clashes w (with_refusal f g r) e live in
      simp (action_loop, live n, refusal_lem f g w r e)
        (over, omega (arith, all, length-append r.errors (clash_error f ∷ [])))
