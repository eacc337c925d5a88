-- ===== src/Sync/TreeLaws.antt =====
-- What `TreeCopy` does with each path that the listing gives.
use mathlib.Core.Path.{subst}
use omnistorage.Base.{
  ℕ, suc, ◌+◌, ◌≤◌, Bytes, ◌≡◌, ◌≢◌, refl, sym, ap, Bool, true, false, List, [], ◌∷◌, none, ok,
  Context, length, length-append, Error, codes, arith, Result-cases, Bool-cases, inl, inr,
}
use omnistorage.Paths.Clean.{path_join}
use omnistorage.Backends.{Backend}
use omnistorage.Sync.Options.{Options, FileError, SyncResult}
use omnistorage.Sync.Listing.{Environment}
use omnistorage.Sync.Copies.{
  tree_relative, copy_file, is_passed, tree_file, tree_loop, tree_copy, empty_result,
}

abbrev file_error : Bytes → Error → FileError
file_error p e = record { path = p; op = codes "copy"; error = e }

module _ {W : Type 0} (env : Environment) (opts : Options) (same : Bool) (S D : Backend W)
    (src dst : Bytes) where
  abbrev done_with : SyncResult → SyncResult
  done_with r = record r { copied = suc r.copied }

  abbrev target_of : Bytes → Bytes
  target_of p = path_join dst (tree_relative src p)

  -- A file is tried from `w` on in `w'`, since existing files are not looked for, or the destination
  -- has just not said that it has something there.
  pub data Missing : Bytes → W → W → Type 0 where
    not_asked : {p : Bytes} {w : W} → opts.ignore_existing ≡ false → Missing p w w
    not_there :
        {p : Bytes} {w : W}
        → opts.ignore_existing ≡ true
        → (D.exists (target_of p) w).0 ≢ ok true
        → Missing p w (D.exists (target_of p) w).1

  -- Each path was either passed over, since it exists in the destination and the option is set, or
  -- copied to its place there without an error, one after the other: how many were copied, and how
  -- many were passed over.
  pub data Accounted : List Bytes → W → W → ℕ → ℕ → Type 0 where
    none_left : {w : W} → Accounted [] w w 0 0
    passed_over :
        {p : Bytes} {ps : List Bytes} {w t : W} {copies skips : ℕ}
        → opts.ignore_existing ≡ true
        → (D.exists (target_of p) w).0 ≡ ok true
        → Accounted ps (D.exists (target_of p) w).1 t copies skips
        → Accounted (p ∷ ps) w t copies (suc skips)
    was_copied :
        {p : Bytes} {ps : List Bytes} {w w' t : W} {copies skips : ℕ}
        → Missing p w w'
        → (copy_file same S D p (target_of p) w').0 ≡ ok tt
        → Accounted ps (copy_file same S D p (target_of p) w').1 t copies skips
        → Accounted (p ∷ ps) w t (suc copies) skips

  counts_agree :
      (ps : List Bytes) (w t t' : W) (copies copies' skips skips' : ℕ)
      → Accounted ps w t copies skips
      → t ≡ t'
      → copies ≡ copies'
      → skips ≡ skips'
      → Accounted ps w t' copies' skips'
  counts_agree ps w t t' copies copies' skips skips' steps e c s =
      subst (λ x. Accounted ps w x copies' skips') e
        (subst (λ x. Accounted ps w t x skips') c (subst (λ x. Accounted ps w t copies x) s steps))

  is_passed-true :
      (p : Bytes) (w : W)
      → (is_passed env opts same S D src dst (target_of p) w).0 ≡ ok true
      → (opts.ignore_existing ≡ true)
        × ((D.exists (target_of p) w).0 ≡ ok true)
        × ((is_passed env opts same S D src dst (target_of p) w).1 ≡ (D.exists (target_of p) w).1)
  unfolding is_passed
  is_passed-true p w h = ground arith

  is_passed-false :
      (p : Bytes) (w : W)
      → (is_passed env opts same S D src dst (target_of p) w).0 ≡ ok false
      → Missing p w (is_passed env opts same S D src dst (target_of p) w).1
  unfolding is_passed
  is_passed-false p w h = elim (Bool-cases opts.ignore_existing) [
    | inl asked ↦
        let there : (is_passed env opts same S D src dst (target_of p) w).1
            ≡ (D.exists (target_of p) w).1 =
          ground (arith, asked, h) in
        let absent : (D.exists (target_of p) w).0 ≢ ok true = ground (arith, asked, h) in
        subst (λ t. Missing p w t) (sym there) (not_there asked absent)
    | inr k ↦
        let still : (is_passed env opts same S D src dst (target_of p) w).1 ≡ w =
          ground (arith, k) in
        subst (λ t. Missing p w t) (sym still) (not_asked k)
  ]

  tree_file_lem :
      (p target : Bytes) (w : W) (r : SyncResult) (b : Bool)
      → opts.dry_run ≡ false
      → (tree_file env opts same S D src dst p target (w, r)).0 ≡ ok b
      → let t = tree_file env opts same S D src dst p target (w, r) in
        (length r.errors ≤ length t.1.1.errors)
        × (length t.1.1.errors ≤ length r.errors
            → (b ≡ false)
              × (t.1.1 ≡ done_with r)
              × ((copy_file same S D p target w).0 ≡ ok tt)
              × (t.1.0 ≡ (copy_file same S D p target w).1))
  unfolding tree_file
  tree_file_lem p target w r b wet done = elim (Result-cases (copy_file same S D p target w).0) [
    | inl (_, e) ↦ simp (tree_file, wet, e) (omega arith, λ h. (ground arith, refl, refl, refl))
    | inr (inl (x, e)) ↦
        let more = length-append r.errors (file_error p x ∷ []) in
        simp (tree_file, wet, e) (omega (arith, more), λ h. absurd (omega (arith, more, h)))
    | inr (inr e) ↦ absurd (ground arith)
  ]

  -- What the loop from `(w, r)` to `t` has done with these paths.
  abbrev Done : List Bytes → W → SyncResult → W × SyncResult → Type 0
  Done ps w r t =
      (copies : ℕ) × (skips : ℕ) × Accounted ps w t.0 copies skips
      × (t.1.copied ≡ r.copied + copies)
      × (t.1.skipped ≡ r.skipped + skips)

  -- No error is lost, and if none is added then each path was copied or passed over.
  tree_loop_lem :
      (n : ℕ) (ps : List Bytes) (w : W) (r : SyncResult) (c : Context)
      → opts.dry_run ≡ false
      → ((k : ℕ) → env.context k ≡ none)
      → (tree_loop env opts same S D src dst n ps (w, r)).0 ≡ ok c
      → let t = tree_loop env opts same S D src dst n ps (w, r) in
        (length r.errors ≤ length t.1.1.errors)
        × (length t.1.1.errors ≤ length r.errors → (c ≡ none) × Done ps w r t.1)
  unfolding tree_loop
  tree_loop_lem n [] w r c wet live done =
      (omega arith, λ h. (ground arith, (0, 0, none_left, omega arith, omega arith)))
  tree_loop_lem n (p ∷ ps) w r c wet live done =
      let target = target_of p in
      let look = is_passed env opts same S D src dst target w in
      let skipping : SyncResult = record r { skipped = suc r.skipped } in
      elim (Result-cases look.0) [
        | inl (true, e) ↦
            let (asked, found, same_state) = is_passed-true p w e in
            let k : (tree_loop env opts same S D src dst (suc n) ps (look.1, skipping)).0 ≡ ok c =
              unfold tree_loop in ground (arith, live n) in
            let (grows, all) = tree_loop_lem (suc n) ps look.1 skipping c wet live k in
            simp (tree_loop, live n, e)
              (
                grows,
                λ h.
                    let (over, (copies, skips, rest, a, b)) = all h in
                    (
                      over,
                      (
                        copies,
                        suc skips,
                        passed_over asked found (
                            subst
                              (λ x.
                                Accounted ps x
                                  (tree_loop env opts same S D src dst (suc n) ps
                                    (look.1, skipping)).1.0
                                  copies skips)
                              same_state rest),
                        omega (arith, a),
                        omega (arith, b),
                      ),
                    ),
              )
        | inl (false, e) ↦
            let step = tree_file env opts same S D src dst p target (look.1, r) in
            elim (Result-cases step.0) [
              | inl (true, f) ↦
                  let (grows, one) = tree_file_lem p target look.1 r true wet f in
                  simp (tree_loop, live n, e, f) (grows, λ h. absurd (ground (arith, one h)))
              | inl (false, f) ↦
                  let (grows, one) = tree_file_lem p target look.1 r false wet f in
                  let (grows', all) =
                    tree_loop_lem (suc n) ps step.1.0 step.1.1 c wet live
                      (ground (arith, live n)) in
                  simp (tree_loop, live n, e, f)
                    (
                      omega (arith, grows, grows'),
                      λ h.
                          let (_, counted, copied_file, left) = one (omega (arith, grows', h)) in
                          let (over, (copies, skips, rest, a, b)) = all (omega (arith, grows, h)) in
                          (
                            over,
                            (
                              suc copies,
                              skips,
                              was_copied (is_passed-false p w e) copied_file (
                                  subst
                                    (λ x.
                                      Accounted ps x
                                        (tree_loop env opts same S D src dst (suc n) ps step.1).1.0
                                        copies skips)
                                    left rest),
                              ground (arith, a, counted),
                              ground (arith, b, counted),
                            ),
                          ),
                    )
              | inr (inl (x, f)) ↦ absurd (ground (arith, live n))
              | inr (inr f) ↦ absurd (ground (arith, live n))
            ]
        | inr (inl (x, e)) ↦ absurd (ground (arith, live n))
        | inr (inr e) ↦ absurd (ground (arith, live n))
      ]

  -- While the context lives, a result of `TreeCopy` that is no dry run and has no errors accounts
  -- for each path that the listing gives, in that order, and each in the state that the one before
  -- has left: the path was passed over, where IgnoreExisting is set and the destination said that
  -- it has something at its place, or else the file was copied to that place without an error. The
  -- counters say how many were copied and how many passed over, and nothing else was done.
  pub tree_copy_complete :
      (w : W) (r : SyncResult) (c : Context)
      → opts.dry_run ≡ false
      → ((k : ℕ) → env.context k ≡ none)
      → (tree_copy env opts same S D src dst w).0 ≡ ok (r, c)
      → r.errors ≡ []
      → (c ≡ none)
        × (paths : List Bytes) × ((S.list src w).0 ≡ ok paths)
        × Accounted paths
            (S.list src w).1
            (tree_copy env opts same S D src dst w).1
            r.copied
            r.skipped
  unfolding tree_copy
  tree_copy_complete w r c wet live done clean =
      let listed = S.list src w in
      elim (Result-cases listed.0) [
        | inl (paths, e) ↦
            let first = empty_result opts.dry_run in
            let t = tree_loop env opts same S D src dst 0 paths (listed.1, first) in
            elim (Result-cases t.0) [
              | inl (c', f) ↦
                  let (_, all) = tree_loop_lem 0 paths listed.1 first c' wet live f in
                  let end : t.1.1 ≡ r = ground arith in
                  let (over, (copies, skips, steps, a, b)) = all (rw (end, clean) (omega arith)) in
                  let left : t.1.0 ≡ (tree_copy env opts same S D src dst w).1 = ground arith in
                  (
                    ground (arith, over),
                    paths,
                    e,
                    counts_agree paths listed.1 t.1.0 _ copies r.copied skips r.skipped steps left
                        (omega (arith, a, ap (λ (x : SyncResult). x.copied) end))
                        (omega (arith, b, ap (λ (x : SyncResult). x.skipped) end)),
                  )
              | inr (inl (x, f)) ↦ absurd (ground arith)
              | inr (inr f) ↦ absurd (ground arith)
            ]
        | inr (inl (x, e)) ↦ absurd (ground arith)
        | inr (inr e) ↦ absurd (ground arith)
      ]
