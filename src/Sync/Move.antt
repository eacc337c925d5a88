-- ===== src/Sync/Move.antt =====
-- sync/sync.go: `Move`, which deletes from the source what is at the destination.
use omnistorage.Base.{
  codes, ℕ, suc, ◌≡◌, ◌≢◌, Bytes, Bool, true, false, List, [], ◌∷◌, none, some, ok, err, panic,
  Context, arith, inl, inr, Option-cases, Bool-cases, Result-cases,
}
use omnistorage.Base.Action.{Action}
use omnistorage.Paths.Clean.{path_join}
use omnistorage.Backends.{Backend}
use omnistorage.Sync.Options.{Options, FileInfo, SyncResult}
use omnistorage.Sync.Listing.{Environment, list_files}
use omnistorage.Sync.Run.{should_stop, add_error, sync}

module _ {W : Type 0} (env : Environment) (opts : Options) (same : Bool) (S D : Backend W)
    (src dst : Bytes) where
  abbrev ask : FileInfo → Action W Bool
  ask f = D.exists (path_join dst f.path)

  abbrev remove : FileInfo → Action W (Unit {0})
  remove f = S.delete (path_join src f.path)

  -- The loop over the source's files, as they are listed after the run, from the moment `n` on.
  unfoldable pub move_loop : ℕ → List FileInfo → Action (W × SyncResult) Context
  move_loop n [] s = (ok none, s)
  move_loop n (f ∷ fs) (w, r) = elim f.is_dir [
    | true ↦ move_loop (suc n) fs (w, r)
    | false ↦ elim (env.context n) [
      | some e ↦ (ok (some e), (w, r))
      | none ↦
          let (answer, w1) = ask f w in
          elim answer [
            | err e ↦ move_loop (suc n) fs (w1, add_error f.path (codes "verify") e r)
            | panic ↦ (panic, (w1, r))
            | ok there ↦ elim there [
              | false ↦ move_loop (suc n) fs (w1, r)
              | true ↦
                  let (removal, w2) = remove f w1 in
                  elim removal [
                    | ok _ ↦ move_loop (suc n) fs (w2, r)
                    | panic ↦ (panic, (w2, r))
                    | err e ↦
                        let r' = add_error f.path (codes "delete-source") e r in
                        elim (should_stop opts r'.errors) [
                          | true ↦ (ok none, (w2, r'))
                          | false ↦ move_loop (suc n) fs (w2, r')
                        ]
                  ]
            ]
          ]
    ]
  ]

  -- What the loop may do to the world, where it may stop at any file: a file that the destination
  -- is asked for and does not say that it has stays, and one that it says that it has is deleted.
  pub data Confirmed : List FileInfo → W → W → Type 0 where
    stopped : {fs : List FileInfo} {s : W} → Confirmed fs s s
    passed_over :
        {f : FileInfo} {fs : List FileInfo} {s t : W} → Confirmed fs s t → Confirmed (f ∷ fs) s t
    kept :
        {f : FileInfo} {fs : List FileInfo} {s t : W}
        → (ask f s).0 ≢ ok true
        → Confirmed fs (ask f s).1 t
        → Confirmed (f ∷ fs) s t
    removed :
        {f : FileInfo} {fs : List FileInfo} {s t : W}
        → (ask f s).0 ≡ ok true
        → Confirmed fs (remove f (ask f s).1).1 t
        → Confirmed (f ∷ fs) s t

  -- The loop of `Move` deletes no file of the source but those for which the destination has just
  -- said that it has something at their path.
  pub move_loop-Confirmed :
      (n : ℕ) (fs : List FileInfo) (w : W) (r : SyncResult)
      → Confirmed fs w (move_loop n fs (w, r)).1.0
  unfolding move_loop
  move_loop-Confirmed n [] w r = stopped
  move_loop-Confirmed n (f ∷ fs) w r = elim (Bool-cases f.is_dir) [
    | inl d ↦ simp d (passed_over (move_loop-Confirmed (suc n) fs w r))
    | inr d ↦ elim (Option-cases (env.context n)) [
      | inr (e, c) ↦ simp (d, c) stopped
      | inl c ↦ elim (Result-cases (ask f w).0) [
        | inr (inl (e, k)) ↦
            simp (d, c, k)
              (kept (ground arith) (
                move_loop-Confirmed (suc n) fs (ask f w).1 (add_error f.path (codes "verify") e r)))
        | inr (inr k) ↦ simp (d, c, k) (kept (ground arith) stopped)
        | inl (false, k) ↦
            simp (d, c, k) (kept (ground arith) (move_loop-Confirmed (suc n) fs (ask f w).1 r))
        | inl (true, k) ↦
            simp (d, c, k)
              (removed k (
                let w2 = (remove f (ask f w).1).1 in
                elim (Result-cases (remove f (ask f w).1).0) [
                  | inl (_, m) ↦ simp m (move_loop-Confirmed (suc n) fs w2 r)
                  | inr (inr m) ↦ simp m stopped
                  | inr (inl (e, m)) ↦
                      let r' = add_error f.path (codes "delete-source") e r in
                      elim (Bool-cases (should_stop opts r'.errors)) [
                        | inl h ↦ simp (m, h) stopped
                        | inr h ↦ simp (m, h) (move_loop-Confirmed (suc n) fs w2 r')
                      ]
                ]))
      ]
    ]
  ]

-- `Move`. Its run of `Sync` does not delete from the destination.
unfoldable pub move_dir :
    {W : Type 0}
    → Environment
    → Options
    → Bool
    → Backend W
    → Backend W
    → Bytes
    → Bytes
    → Action W (SyncResult × Context)
move_dir env opts same S D src dst w =
    let keep : Options = record opts { delete_extra = false } in
    let (run, w1) = sync env keep same S D src dst w in
    elim run [
      | err e ↦ (err e, w1)
      | panic ↦ (panic, w1)
      | ok (r, some e) ↦ (ok (r, some e), w1)
      | ok (r, none) ↦ elim opts.dry_run [
        | true ↦ (ok (r, none), w1)
        | false ↦
            let (listing, w2) = list_files env keep S src w1 in
            elim listing [
              | err e ↦ (ok (r, some e), w2)
              | panic ↦ (panic, w2)
              | ok fs ↦
                  let (end, (w3, r')) = move_loop env keep same S D src dst 0 fs (w2, r) in
                  elim end [ ok c ↦ (ok (r', c), w3) | err e ↦ (err e, w3) | panic ↦ (panic, w3) ]
            ]
      ]
    ]
