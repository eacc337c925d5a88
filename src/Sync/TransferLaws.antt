-- ===== src/Sync/TransferLaws.antt =====
-- The worker of `Sync`: dry runs, and what a run without errors has copied.
use mathlib.Core.Path.{subst}
use omnistorage.Base.{
  codes, ℕ, suc, ◌+◌, ◌≤◌, Bytes, ◌≡◌, refl, ◌∙◌, inl, inr, Bool, true, List, [], ◌∷◌, none, Error,
  ok, sym, ap, false, length, length-append, arith, Result-cases, Option-cases,
}
use omnistorage.Base.Action.{Action}
use omnistorage.Paths.Clean.{path_join}
use omnistorage.Backends.{Backend}
use omnistorage.Sync.Options.{Options, SyncResult}
use omnistorage.Sync.Compare.{CopyAction}
use omnistorage.Sync.Listing.{Environment, copy_file_with_context}
use omnistorage.Sync.Run.{add_error, add_file, transfer}

module _ {W : Type 0} (env : Environment) (opts : Options) (same : Bool) (S D : Backend W)
    (src dst : Bytes) where
  pub transfer_dry :
      (n : ℕ) (actions : List CopyAction) (s : W × SyncResult)
      → opts.dry_run ≡ true
      → ((transfer env opts same S D src dst n actions s).1.0 ≡ s.0)
        × ((transfer env opts same S D src dst n actions s).1.1.errors ≡ s.1.errors)
  unfolding transfer
  transfer_dry n [] s h = (refl, refl)
  transfer_dry n (a ∷ actions) (w, r) h = elim (Option-cases (env.context n)) [
    | inl e ↦ ground (arith, transfer_dry (suc n) actions (w, add_file a r) h)
    | inr (c, e) ↦ ground arith
  ]

  pub length_error :
      (p op : Bytes) (e : Error) (r : SyncResult)
      → length (add_error p op e r).errors ≡ suc (length r.errors)
  length_error p op e r = length-append r.errors _ ∙ omega arith

  -- The transfer of one action, as `transfer` calls it.
  abbrev pub copy_of : CopyAction → Action W (Unit {0})
  copy_of a =
      copy_file_with_context env opts same S (path_join src a.file.path) D
        (path_join dst a.file.path)

  abbrev pub failed_copy : CopyAction → Error → SyncResult → SyncResult
  failed_copy a e r = add_error a.file.path (codes "copy") e r

  -- Errors are never taken back.
  pub transfer_grows :
      (n : ℕ) (actions : List CopyAction) (w : W) (r : SyncResult)
      → let t = (transfer env opts same S D src dst n actions (w, r)).1.1 in
        (length r.errors ≤ length t.errors) × (t.skipped ≡ r.skipped) × (t.deleted ≡ r.deleted)
  unfolding transfer
  transfer_grows n [] w r = (omega arith, refl, refl)
  transfer_grows n (a ∷ actions) w r = elim (Result-cases (copy_of a w).0) [
    | inl (_, k) ↦ ground (
      arith,
      transfer_grows (suc n) actions w (add_file a r),
      transfer_grows (suc n) actions (copy_of a w).1 (add_file a r),
    )
    | inr (inl (e, k)) ↦ ground (
      arith,
      length_error a.file.path (codes "copy") e r,
      transfer_grows (suc n) actions w (add_file a r),
      transfer_grows (suc n) actions (copy_of a w).1 (failed_copy a e r),
    )
    | inr (inr k) ↦ ground (arith, transfer_grows (suc n) actions w (add_file a r))
  ]

  -- Each file was copied from the source to the destination, one after the other, without an error.
  pub data Copied : List CopyAction → W → W → Type 0 where
    no_copies : {w : W} → Copied [] w w
    and_copied :
        {a : CopyAction} {actions : List CopyAction} {w t : W}
        → (copy_of a w).0 ≡ ok tt
        → Copied actions (copy_of a w).1 t
        → Copied (a ∷ actions) w t

  pub transfer-Copied :
      (n : ℕ) (actions : List CopyAction) (w : W) (r : SyncResult)
      → ((k : ℕ) → env.context k ≡ none)
      → opts.dry_run ≡ false
      → let t = transfer env opts same S D src dst n actions (w, r) in
        t.0 ≡ ok tt → length t.1.1.errors ≤ length r.errors → Copied actions w t.1.0
  unfolding transfer
  transfer-Copied n [] w r live real done h = no_copies
  transfer-Copied n (a ∷ actions) w r live real done h = elim (Result-cases (copy_of a w).0) [
    | inl (_, k) ↦
        let rest =
          transfer env opts same S D src dst (suc n) actions ((copy_of a w).1, add_file a r) in
        let eq : transfer env opts same S D src dst n (a ∷ actions) (w, r) ≡ rest =
          ground (arith, live n, real, k) in
        subst (Copied (a ∷ actions) w) (sym (ap (λ t. t.1.0) eq)) (
          and_copied k (
            transfer-Copied (suc n) actions (copy_of a w).1 (add_file a r) live real
              (sym (ap (λ t. t.0) eq) ∙ done)
              (let same_errors = ap (λ t. length t.1.1.errors) eq in
                omega (arith, h, same_errors))))
    | inr (inl (e, k)) ↦ absurd (
        ground (
          arith,
          live n,
          real,
          length_error a.file.path (codes "copy") e r,
          transfer_grows (suc n) actions (copy_of a w).1 (failed_copy a e r),
        ))
    | inr (inr k) ↦ absurd (ground (arith, live n, real))
  ]

  pub transfer_complete :
      (n : ℕ) (actions : List CopyAction) (w : W) (r : SyncResult)
      → ((k : ℕ) → env.context k ≡ none)
      → let t = transfer env opts same S D src dst n actions (w, r) in
        t.0 ≡ ok tt
        → length t.1.1.errors ≤ length r.errors
        → t.1.1.copied + t.1.1.updated ≡ r.copied + r.updated + length actions
  unfolding transfer
  transfer_complete n [] w r live done h = omega arith
  transfer_complete n (a ∷ actions) w r live done h = elim (Result-cases (copy_of a w).0) [
    | inl (_, k) ↦ ground (
      arith,
      live n,
      transfer_complete (suc n) actions w (add_file a r) live,
      transfer_complete (suc n) actions (copy_of a w).1 (add_file a r) live,
    )
    | inr (inl (e, k)) ↦ ground (
      arith,
      live n,
      length_error a.file.path (codes "copy") e r,
      transfer_complete (suc n) actions w (add_file a r) live,
      transfer_grows (suc n) actions (copy_of a w).1 (failed_copy a e r),
    )
    | inr (inr k) ↦ ground (arith, live n, transfer_complete (suc n) actions w (add_file a r) live)
  ]
