-- ===== src/Sync/RunLaws.antt =====
-- What a run of `Sync` does with its plan: dry runs and complete runs.
use mathlib.Core.Path.{subst}
use omnistorage.Base.{
  codes, ℕ, suc, ◌+◌, ◌≤◌, Bytes, ◌≡◌, refl, ◌∙◌, inl, inr, Bool, true, List, [], ◌∷◌, none, Error,
  ok, sym, ap, false, Context, length, arith, Result-cases, Option-cases,
}
use omnistorage.Paths.Clean.{path_join}
use omnistorage.Backends.{Backend}
use omnistorage.Sync.Options.{Options, SyncResult}
use omnistorage.Sync.Compare.{Plan, to_delete}
use omnistorage.Sync.Listing.{Environment}
use omnistorage.Sync.Run.{add_error, add_deleted, transfer, delete_loop, execute}
use omnistorage.Sync.TransferLaws.{
  transfer_dry, length_error, transfer_grows, Copied, transfer-Copied, transfer_complete,
}

module _ {W : Type 0} (env : Environment) (opts : Options) (same : Bool) (S D : Backend W)
    (src dst : Bytes) where
  delete_dry :
      (n : ℕ) (ps : List Bytes) (s : W × SyncResult)
      → opts.dry_run ≡ true
      → ((delete_loop env opts same S D src dst n ps s).1.0 ≡ s.0)
        × ((delete_loop env opts same S D src dst n ps s).1.1.errors ≡ s.1.errors)
  unfolding delete_loop
  delete_dry n [] s h = (refl, refl)
  delete_dry n (p ∷ ps) (w, r) h = elim (Option-cases (env.context n)) [
    | inl e ↦ ground (arith, delete_dry (suc n) ps (w, add_deleted r) h)
    | inr (c, e) ↦ ground arith
  ]

  -- Each path was deleted from the destination, one after the other, without an error.
  pub data Deleted : List Bytes → W → W → Type 0 where
    no_deletions : {w : W} → Deleted [] w w
    and_deleted :
        {p : Bytes} {ps : List Bytes} {w t : W}
        → (D.delete (path_join dst p) w).0 ≡ ok tt
        → Deleted ps (D.delete (path_join dst p) w).1 t
        → Deleted (p ∷ ps) w t

  abbrev pub failed_delete : Bytes → Error → SyncResult → SyncResult
  failed_delete p e r = add_error p (codes "delete") e r

  delete_grows :
      (n : ℕ) (ps : List Bytes) (w : W) (r : SyncResult)
      → let t = (delete_loop env opts same S D src dst n ps (w, r)).1.1 in
        (length r.errors ≤ length t.errors)
        × (t.skipped ≡ r.skipped)
        × (t.copied ≡ r.copied)
        × (t.updated ≡ r.updated)
  unfolding delete_loop
  delete_grows n [] w r = (omega arith, refl, refl, refl)
  delete_grows n (p ∷ ps) w r = elim (Result-cases (D.delete (path_join dst p) w).0) [
    | inl (_, k) ↦ ground (
      arith,
      delete_grows (suc n) ps w (add_deleted r),
      delete_grows (suc n) ps (D.delete (path_join dst p) w).1 (add_deleted r),
    )
    | inr (inl (e, k)) ↦ ground (
      arith,
      length_error env opts same S D src dst p (codes "delete") e r,
      delete_grows (suc n) ps w (add_deleted r),
      delete_grows (suc n) ps (D.delete (path_join dst p) w).1 (failed_delete p e r),
    )
    | inr (inr k) ↦ ground (arith, delete_grows (suc n) ps w (add_deleted r))
  ]

  delete_complete :
      (n : ℕ) (ps : List Bytes) (w : W) (r : SyncResult) (c : Context)
      → ((k : ℕ) → env.context k ≡ none)
      → let t = delete_loop env opts same S D src dst n ps (w, r) in
        t.0 ≡ ok c
        → length t.1.1.errors ≤ length r.errors
        → (c ≡ none) × (t.1.1.deleted ≡ r.deleted + length ps)
  unfolding delete_loop
  delete_complete n [] w r c live done h = ground arith
  delete_complete n (p ∷ ps) w r c live done h =
      elim (Result-cases (D.delete (path_join dst p) w).0) [
        | inl (_, k) ↦ ground (
          arith,
          live n,
          delete_complete (suc n) ps w (add_deleted r) c live,
          delete_complete (suc n) ps (D.delete (path_join dst p) w).1 (add_deleted r) c live,
        )
        | inr (inl (e, k)) ↦ ground (
          arith,
          live n,
          length_error env opts same S D src dst p (codes "delete") e r,
          delete_complete (suc n) ps w (add_deleted r) c live,
          delete_grows (suc n) ps (D.delete (path_join dst p) w).1 (failed_delete p e r),
        )
        | inr (inr k) ↦ ground (arith, live n, delete_complete (suc n) ps w (add_deleted r) c live)
      ]

  delete_loop-Deleted :
      (n : ℕ) (ps : List Bytes) (w : W) (r : SyncResult) (c : Context)
      → ((k : ℕ) → env.context k ≡ none)
      → opts.dry_run ≡ false
      → let t = delete_loop env opts same S D src dst n ps (w, r) in
        t.0 ≡ ok c → length t.1.1.errors ≤ length r.errors → Deleted ps w t.1.0
  unfolding delete_loop
  delete_loop-Deleted n [] w r c live real done h = no_deletions
  delete_loop-Deleted n (p ∷ ps) w r c live real done h =
      let one = D.delete (path_join dst p) w in
      elim (Result-cases one.0) [
        | inl (_, k) ↦
            let rest = delete_loop env opts same S D src dst (suc n) ps (one.1, add_deleted r) in
            let eq : delete_loop env opts same S D src dst n (p ∷ ps) (w, r) ≡ rest =
              ground (arith, live n, real, k) in
            subst (Deleted (p ∷ ps) w) (sym (ap (λ t. t.1.0) eq)) (
              and_deleted k (
                delete_loop-Deleted (suc n) ps one.1 (add_deleted r) c live real
                  (sym (ap (λ t. t.0) eq) ∙ done)
                  (let same_errors = ap (λ t. length t.1.1.errors) eq in
                    omega (arith, h, same_errors))))
        | inr (inl (e, k)) ↦ absurd (
            ground (
              arith,
              live n,
              real,
              length_error env opts same S D src dst p (codes "delete") e r,
              delete_grows (suc n) ps one.1 (failed_delete p e r),
            ))
        | inr (inr k) ↦ absurd (ground (arith, live n, real))
      ]

  -- A dry run that starts from a result without errors changes nothing and has none.
  pub execute_dry :
      (p : Plan) (s : W × SyncResult)
      → opts.dry_run ≡ true
      → ((execute env opts same S D src dst p s).1.0 ≡ s.0)
        × ((execute env opts same S D src dst p s).1.1.errors ≡ s.1.errors)
  unfolding execute
  execute_dry p s h =
      let t = (transfer env opts same S D src dst 0 p.to_copy s).1 in
      let m = suc (length p.to_copy) in
      elim (Result-cases (transfer env opts same S D src dst 0 p.to_copy s).0) [
        | inl (_, k) ↦ ground (
          arith,
          transfer_dry env opts same S D src dst 0 p.to_copy s h,
          delete_dry m (to_delete opts p) t h,
        )
        | inr (inl (e, k)) ↦ ground (arith, transfer_dry env opts same S D src dst 0 p.to_copy s h)
        | inr (inr k) ↦ ground (arith, transfer_dry env opts same S D src dst 0 p.to_copy s h)
      ]

  pub execute_complete :
      (p : Plan) (w : W) (r : SyncResult) (c : Context)
      → ((k : ℕ) → env.context k ≡ none)
      → let t = execute env opts same S D src dst p (w, r) in
        t.0 ≡ ok c
        → length t.1.1.errors ≤ length r.errors
        → (c ≡ none)
          × (t.1.1.copied + t.1.1.updated ≡ r.copied + r.updated + length p.to_copy)
          × (t.1.1.deleted ≡ r.deleted + length (to_delete opts p))
          × (t.1.1.skipped ≡ r.skipped)
  unfolding execute
  execute_complete p w r c live done h =
      let t = (transfer env opts same S D src dst 0 p.to_copy (w, r)).1 in
      let m = suc (length p.to_copy) in
      elim (Result-cases (transfer env opts same S D src dst 0 p.to_copy (w, r)).0) [
        | inl (_, k) ↦ ground (
          arith,
          live (length p.to_copy),
          transfer_grows env opts same S D src dst 0 p.to_copy w r,
          transfer_complete env opts same S D src dst 0 p.to_copy w r live,
          delete_grows m (to_delete opts p) t.0 t.1,
          delete_complete m (to_delete opts p) t.0 t.1 c live,
        )
        | inr (inl (e, k)) ↦ absurd (ground arith)
        | inr (inr k) ↦ absurd (ground arith)
      ]

  pub execute-Done :
      (p : Plan) (w : W) (r : SyncResult) (c : Context)
      → ((k : ℕ) → env.context k ≡ none)
      → opts.dry_run ≡ false
      → let t = execute env opts same S D src dst p (w, r) in
        t.0 ≡ ok c
        → length t.1.1.errors ≤ length r.errors
        → (middle : W) × Copied env opts same S D src dst p.to_copy w middle
          × Deleted (to_delete opts p) middle t.1.0
  unfolding execute
  execute-Done p w r c live real done h =
      let t = transfer env opts same S D src dst 0 p.to_copy (w, r) in
      let m = suc (length p.to_copy) in
      elim (Result-cases t.0) [
        | inl (_, k) ↦
            let u = delete_loop env opts same S D src dst m (to_delete opts p) t.1 in
            let eq : execute env opts same S D src dst p (w, r) ≡ u =
              ground (arith, k, live (length p.to_copy)) in
            let more = delete_grows m (to_delete opts p) t.1.0 t.1.1 in
            let grew = transfer_grows env opts same S D src dst 0 p.to_copy w r in
            let few : length u.1.1.errors ≤ length r.errors = ground (arith, eq, h) in
            (
              t.1.0,
              transfer-Copied env opts same S D src dst 0 p.to_copy w r live real k
                  (omega (arith, few, more)),
              subst (Deleted (to_delete opts p) t.1.0) (sym (ap (λ t. t.1.0) eq)) (
                  delete_loop-Deleted m (to_delete opts p) t.1.0 t.1.1 c live real
                    (sym (ap (λ t. t.0) eq) ∙ done) (omega (arith, few, grew))),
            )
        | inr (inl (e, k)) ↦ absurd (ground arith)
        | inr (inr k) ↦ absurd (ground arith)
      ]
