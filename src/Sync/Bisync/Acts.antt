-- ===== src/Sync/Bisync/Acts.antt =====
-- What one action of `Bisync` does to the result, and to the two sides in a dry run.
use omnistorage.Base.{
  ℕ, suc, ◌+◌, ◌≤◌, Bytes, ◌≡◌, refl, ◌∙◌, Bool, true, false, List, [], ◌∷◌, ◌++◌, ok, length,
  length-append, arith, Bool-cases, Option-cases, codes, inl, inr, Result-cases,
}
use omnistorage.Base.Action.{Action}
use omnistorage.Backends.{Backend}
use omnistorage.Sync.Options.{FileInfo, FileError}
use omnistorage.Sync.Listing.{Environment}
use omnistorage.Sync.Conflict.{
  Direction, to1, to2, both, nowhere, Resolution, resolve_conflict, resolve_conflict_cases,
}
use omnistorage.Sync.Bisync.Options.{BisyncOptions, BisyncResult, copy_options, total_updated}
use omnistorage.Sync.Bisync.Plan.{BisyncAction, copy_to2, copy_to1, in_conflict}
use omnistorage.Sync.Bisync.Run.{
  add_updated, note_conflict, conflict_of, name_of, copy_to, add_copied, copy_direction,
  handle_conflict, act,
}

-- How many of the actions are copies to the second side, to the first, and conflicts.
abbrev pub to2_count : List BisyncAction → ℕ
to2_count [] = 0
to2_count (copy_to2 f ∷ acts) = suc (to2_count acts)
to2_count (copy_to1 g ∷ acts) = to2_count acts
to2_count (in_conflict f g ∷ acts) = to2_count acts

abbrev pub to1_count : List BisyncAction → ℕ
to1_count [] = 0
to1_count (copy_to2 f ∷ acts) = to1_count acts
to1_count (copy_to1 g ∷ acts) = suc (to1_count acts)
to1_count (in_conflict f g ∷ acts) = to1_count acts

abbrev pub conflict_count : List BisyncAction → ℕ
conflict_count [] = 0
conflict_count (copy_to2 f ∷ acts) = conflict_count acts
conflict_count (copy_to1 g ∷ acts) = conflict_count acts
conflict_count (in_conflict f g ∷ acts) = suc (conflict_count acts)

pub counts_sum :
    (acts : List BisyncAction) → to2_count acts + to1_count acts + conflict_count acts ≡ length acts
counts_sum [] = refl
counts_sum (copy_to2 f ∷ acts) = omega (arith, counts_sum acts)
counts_sum (copy_to1 g ∷ acts) = omega (arith, counts_sum acts)
counts_sum (in_conflict f g ∷ acts) = omega (arith, counts_sum acts)

-- The counters of `r'` are those of `r` and what the actions come to.
pub record Counted (acts : List BisyncAction) (r r' : BisyncResult) : Type 0 where
  pub second : r'.copied_to_path2 ≡ r.copied_to_path2 + to2_count acts
  pub first : r'.copied_to_path1 ≡ r.copied_to_path1 + to1_count acts
  pub clashes : length r'.conflicts ≡ length r.conflicts + conflict_count acts
  pub passed : r'.skipped ≡ r.skipped

errors-snoc :
    (r : BisyncResult) (x : FileError) → length (r.errors ++ (x ∷ [])) ≡ suc (length r.errors)
errors-snoc r x = omega (arith, length-append r.errors (x ∷ []))

add_updated_lem :
    (d : Direction) (f g : FileInfo) (r : BisyncResult)
    → ((add_updated d f g r).copied_to_path2 ≡ r.copied_to_path2)
      × ((add_updated d f g r).copied_to_path1 ≡ r.copied_to_path1)
      × ((add_updated d f g r).skipped ≡ r.skipped)
      × ((add_updated d f g r).errors ≡ r.errors)
unfolding add_updated
add_updated_lem to1 f g r = (refl, refl, refl, refl)
add_updated_lem to2 f g r = (refl, refl, refl, refl)
add_updated_lem both f g r = (refl, refl, refl, refl)
add_updated_lem nowhere f g r = (refl, refl, refl, refl)

noted_updates :
    (dry : Bool) (f g : FileInfo) (res : Resolution) (r : BisyncResult)
    → dry ≡ true
    → total_updated (note_conflict dry f g res r) ≡ total_updated r
unfolding note_conflict
noted_updates dry f g res r h = ground arith

noted_errors :
    (dry : Bool) (f g : FileInfo) (res : Resolution) (r : BisyncResult)
    → length r.errors ≤ length (note_conflict dry f g res r).errors
unfolding note_conflict
noted_errors dry f g res r = elim (Option-cases res.failure) [
  | inl k ↦ let (_, _, _, e) = add_updated_lem res.direction f g r in ground (arith, e)
  | inr (x, k) ↦
      rw k
        (omega (arith, errors-snoc r (record { path = f.path; op = codes "conflict"; error = x })))
]

noted_counts :
    (dry : Bool) (f g : FileInfo) (res : Resolution) (r : BisyncResult)
    → Counted (in_conflict f g ∷ []) r (note_conflict dry f g res r)
unfolding note_conflict
noted_counts dry f g res r =
    let (c2, c1, k, e) = add_updated_lem res.direction f g r in
    record {
      second = ground (arith, c2);
      first = ground (arith, c1);
      clashes = omega (arith, length-append r.conflicts (conflict_of f g res ∷ []));
      passed = ground (arith, k);
    }

-- The action of a copy to the second side, or to the first.
abbrev copy_action : Bool → FileInfo → BisyncAction
copy_action true f = copy_to2 f
copy_action false f = copy_to1 f

add_copied_lem :
    (d : Bool) (f : FileInfo) (r : BisyncResult)
    → Counted (copy_action d f ∷ []) r (add_copied d f r)
      × ((add_copied d f r).errors ≡ r.errors)
      × (total_updated (add_copied d f r) ≡ total_updated r)
add_copied_lem true f r = (
  record { second = omega arith; first = omega arith; clashes = omega arith; passed = refl },
  refl,
  refl,
)
add_copied_lem false f r = (
  record { second = omega arith; first = omega arith; clashes = omega arith; passed = refl },
  refl,
  refl,
)

module _ {W : Type 0} (env : Environment) (opts : BisyncOptions) (same : Bool) (one two : Backend W)
    (path1 path2 : Bytes) where
  abbrev after : BisyncAction → W → BisyncResult → BisyncResult
  after a w r = (act env opts same one two path1 path2 a (w, r)).1.1

  -- What is said of the end `t` of an action at `(w, r)`, which gave `b`: it takes no error away;
  -- if it adds none it does not end the loop, and is counted; and a dry run changes nothing.
  pub record Acted (a : BisyncAction) (w : W) (r : BisyncResult) (b : Bool) (t : W × BisyncResult)
      : Type 0 where
    pub grows : length r.errors ≤ length t.1.errors
    pub counted : length t.1.errors ≤ length r.errors → (b ≡ false) × Counted (a ∷ []) r t.1
    pub is_dry :
        opts.dry_run ≡ true
        → (b ≡ false) × (t.0 ≡ w) × (total_updated t.1 ≡ total_updated r) × Counted (a ∷ []) r t.1

  copy_direction-Acted :
      (d : Bool) (f : FileInfo) (w : W) (r : BisyncResult) (b : Bool)
      → (copy_direction env opts same one two path1 path2 d f (w, r)).0 ≡ ok b
      → Acted
          (copy_action d f)
          w
          r
          b
          (copy_direction env opts same one two path1 path2 d f (w, r)).1
  unfolding copy_direction
  copy_direction-Acted d f w r b h =
      let (counts, same_errors, updates) = add_copied_lem d f r in
      elim (Bool-cases opts.dry_run) [
        | inl dry ↦
            simp (copy_direction, dry)
              (record {
                grows = ground (arith, same_errors);
                counted = λ k. (ground arith, counts);
                is_dry = λ k. (ground arith, refl, updates, counts);
              })
        | inr wet ↦
            let copy : Action W (Unit {0}) = copy_to env opts same one two path1 path2 d f.path in
            elim (Result-cases (copy w).0) [
              | inl (_, e) ↦
                  simp (copy_direction, wet, e)
                    (record {
                      grows = ground (arith, same_errors);
                      counted = λ k. (ground arith, counts);
                      is_dry = λ k. absurd cc;
                    })
              | inr (inl (x, e)) ↦
                  let more = errors-snoc r (record { path = f.path; op = name_of d; error = x }) in
                  simp (copy_direction, wet, e)
                    (record {
                      grows = omega (arith, more);
                      counted = λ k. absurd (omega (arith, more, k));
                      is_dry = λ k. absurd cc;
                    })
              | inr (inr e) ↦ absurd (ground arith)
            ]
      ]

  pub act-Acted :
      (a : BisyncAction) (w : W) (r : BisyncResult) (b : Bool)
      → (act env opts same one two path1 path2 a (w, r)).0 ≡ ok b
      → Acted a w r b (act env opts same one two path1 path2 a (w, r)).1
  unfolding act
  act-Acted (copy_to2 f) w r b h = copy_direction-Acted true f w r b h
  act-Acted (copy_to1 g) w r b h = copy_direction-Acted false g w r b h
  act-Acted (in_conflict f g) w r b h =
      let dry = opts.dry_run in
      let clash : Action W Resolution =
        resolve_conflict env (copy_options opts) same one two path1 path2 opts.conflict_suffix
          opts.conflict_strategy opts.dry_run f g in
      elim (Result-cases (clash w).0) [
        | inl (res, e) ↦
            let (unchanged, _, _, _) =
              resolve_conflict_cases env (copy_options opts) same one two path1 path2
                opts.conflict_suffix opts.conflict_strategy opts.dry_run f g w res e in
            let goes_on : b ≡ false = unfold handle_conflict in ground arith in
            simp (act, handle_conflict, e)
              (record {
                grows = noted_errors dry f g res r;
                counted = λ k. (goes_on, noted_counts dry f g res r);
                is_dry = λ d. (
                  goes_on,
                  unchanged d,
                  noted_updates dry f g res r d,
                  noted_counts dry f g res r,
                );
              })
        | inr (inl (e, k)) ↦ absurd (unfold handle_conflict in ground arith)
        | inr (inr k) ↦ absurd (unfold handle_conflict in ground arith)
      ]

pub Counted-trans :
    {ys : List BisyncAction} {r r' r'' : BisyncResult} (a : BisyncAction)
    → Counted (a ∷ []) r r'
    → Counted ys r' r''
    → Counted (a ∷ ys) r r''
Counted-trans (copy_to2 f) p q = record {
  second = omega (arith, p.second, q.second);
  first = omega (arith, p.first, q.first);
  clashes = omega (arith, p.clashes, q.clashes);
  passed = q.passed ∙ p.passed;
}
Counted-trans (copy_to1 f) p q = record {
  second = omega (arith, p.second, q.second);
  first = omega (arith, p.first, q.first);
  clashes = omega (arith, p.clashes, q.clashes);
  passed = q.passed ∙ p.passed;
}
Counted-trans (in_conflict f g) p q = record {
  second = omega (arith, p.second, q.second);
  first = omega (arith, p.first, q.first);
  clashes = omega (arith, p.clashes, q.clashes);
  passed = q.passed ∙ p.passed;
}
