-- ===== src/Sync/Bisync/Effects.antt =====
-- What a loop over the actions without an error has done to the two sides.
use mathlib.Core.Path.{subst}
use omnistorage.Base.{
  ℕ, suc, ◌≤◌, Bytes, ◌≡◌, sym, ap, ◌∙◌, Bool, true, false, List, [], ◌∷◌, ◌++◌, none, ok, Context,
  length, length-append, arith, codes, Option-cases, inl, inr, Result-cases,
}
use omnistorage.Base.Action.{Action}
use omnistorage.Backends.{Backend}
use omnistorage.Paths.Clean.{path_join}
use omnistorage.Sync.Options.{FileError}
use omnistorage.Sync.Listing.{Environment, copy_file_with_context}
use omnistorage.Sync.Conflict.{Resolution, resolve_conflict}
use omnistorage.Sync.Bisync.Options.{BisyncOptions, BisyncResult, copy_options}
use omnistorage.Sync.Bisync.Plan.{BisyncAction, copy_to2, copy_to1, in_conflict}
use omnistorage.Sync.Bisync.Run.{
  note_conflict, name_of, copy_to, copy_direction, handle_conflict, act, action_loop,
}
use omnistorage.Sync.Bisync.Acts.{act-Acted}
use omnistorage.Sync.Bisync.Loop.{action_loop-Looped}

module _ {W : Type 0} (env : Environment) (opts : BisyncOptions) (same : Bool) (one two : Backend W)
    (path1 path2 : Bytes) where
  -- The action takes the state `w` to `t`, without an error: a file goes from its side to the
  -- other, or a conflict is resolved.
  abbrev pub Does : BisyncAction → W → W → Type 0
  Does (copy_to2 f) w t =
      copy_file_with_context env (copy_options opts) same one (path_join path1 f.path) two
        (path_join path2 f.path) w
      ≡ (ok tt, t)
  Does (copy_to1 g) w t =
      copy_file_with_context env (copy_options opts) same two (path_join path2 g.path) one
        (path_join path1 g.path) w
      ≡ (ok tt, t)
  Does (in_conflict f g) w t =
      (res : Resolution) × (res.failure ≡ none)
      × (resolve_conflict env (copy_options opts) same one two path1 path2 opts.conflict_suffix
            opts.conflict_strategy false f g w
          ≡ (ok res, t))

  -- The actions, one after the other.
  pub data Performed : List BisyncAction → W → W → Type 0 where
    nothing_left : {w : W} → Performed [] w w
    and_then :
        {a : BisyncAction} {actions : List BisyncAction} {w v t : W}
        → Does a w v
        → Performed actions v t
        → Performed (a ∷ actions) w t

  one_error :
      (r : BisyncResult) (x : FileError) → length (r.errors ++ (x ∷ [])) ≡ suc (length r.errors)
  one_error r x = omega (arith, length-append r.errors (x ∷ []))

  act-Does :
      (a : BisyncAction) (w : W) (r : BisyncResult) (b : Bool)
      → opts.dry_run ≡ false
      → let t = act env opts same one two path1 path2 a (w, r) in
        t.0 ≡ ok b → length t.1.1.errors ≤ length r.errors → Does a w t.1.0
  unfolding act copy_direction handle_conflict
  act-Does (copy_to2 f) w r b real done h =
      let copy : Action W (Unit {0}) = copy_to env opts same one two path1 path2 true f.path in
      elim (Result-cases (copy w).0) [
        | inl (_, e) ↦ ground (arith, real, e)
        | inr (inl (x, e)) ↦
            let more = one_error r (record { path = f.path; op = name_of true; error = x }) in
            absurd (ground (arith, real, e, more))
        | inr (inr e) ↦ absurd (ground (arith, real, e))
      ]
  act-Does (copy_to1 g) w r b real done h =
      let copy : Action W (Unit {0}) = copy_to env opts same one two path1 path2 false g.path in
      elim (Result-cases (copy w).0) [
        | inl (_, e) ↦ ground (arith, real, e)
        | inr (inl (x, e)) ↦
            let more = one_error r (record { path = g.path; op = name_of false; error = x }) in
            absurd (ground (arith, real, e, more))
        | inr (inr e) ↦ absurd (ground (arith, real, e))
      ]
  act-Does (in_conflict f g) w r b real done h =
      let clash : Action W Resolution =
        resolve_conflict env (copy_options opts) same one two path1 path2 opts.conflict_suffix
          opts.conflict_strategy false f g in
      elim (Result-cases (clash w).0) [
        | inl (res, e) ↦ elim (Option-cases res.failure) [
          | inl fine ↦ (res, fine, ground (arith, real, e))
          | inr (x, k) ↦
              let more = one_error r (record { path = f.path; op = codes "conflict"; error = x }) in
              absurd (unfold note_conflict in ground (arith, real, e, k, more))
        ]
        | inr (inl (x, e)) ↦ absurd (ground (arith, real, e))
        | inr (inr e) ↦ absurd (ground (arith, real, e))
      ]

  pub action_loop-Performed :
      (n : ℕ) (actions : List BisyncAction) (w : W) (r : BisyncResult) (c : Context)
      → ((k : ℕ) → env.context k ≡ none)
      → opts.dry_run ≡ false
      → let t = action_loop env opts same one two path1 path2 n actions (w, r) in
        t.0 ≡ ok c → length t.1.1.errors ≤ length r.errors → Performed actions w t.1.0
  unfolding action_loop
  action_loop-Performed n [] w r c live real done h = nothing_left
  action_loop-Performed n (a ∷ actions) w r c live real done h =
      let acting = act env opts same one two path1 path2 a (w, r) in
      elim (Result-cases acting.0) [
        | inl (true, e) ↦
            let acted = act-Acted env opts same one two path1 path2 a w r true e in
            absurd (ground (arith, live n, e, h, acted.counted))
        | inl (false, e) ↦
            let rest = action_loop env opts same one two path1 path2 (suc n) actions acting.1 in
            let eq : action_loop env opts same one two path1 path2 n (a ∷ actions) (w, r) ≡ rest =
              ground (arith, live n, e) in
            let acted = act-Acted env opts same one two path1 path2 a w r false e in
            let over : rest.0 ≡ ok c = sym (ap (λ t. t.0) eq) ∙ done in
            let few : length rest.1.1.errors ≤ length r.errors =
              (let same_errors = ap (λ t. length t.1.1.errors) eq in
                omega (arith, h, same_errors)) in
            let looped =
              action_loop-Looped env opts same one two path1 path2 (suc n) actions acting.1.0
                acting.1.1 c over in
            subst (Performed (a ∷ actions) w) (sym (ap (λ t. t.1.0) eq)) (
              and_then (act-Does a w r false real e (omega (arith, few, looped.grows))) (
                action_loop-Performed (suc n) actions acting.1.0 acting.1.1 c live real over
                  (omega (arith, few, acted.grows))))
        | inr (inl (x, e)) ↦ absurd (ground (arith, live n, e))
        | inr (inr e) ↦ absurd (ground (arith, live n, e))
      ]
