-- ===== src/Sync/CheckResults.antt =====
-- What the result of `Check` says of each path.
use omnistorage.Base.{
  Bytes, bytes_eq, nat_eq, ◌≡◌, refl, sym, ap, ◌∙◌, ◌↔◌, ◌⊎◌, inl, inr, Bool, true, false, not,
  ◌&&◌, List, [], ◌∷◌, some, Error, Result, ok, err, arith, ◌==◌, Bool-cases, Result-cases,
}
use omnistorage.Base.Int.{int_eq}
use omnistorage.Base.Dict
use omnistorage.Base.Dict.{Dict}
use omnistorage.Base.Sort.{mem}
use omnistorage.Backends.{Backend}
use omnistorage.Sync.Options.{Options, FileInfo}
use omnistorage.Sync.CompareLaws.{treated, plain_count, DistinctPaths}
use omnistorage.Sync.Check.{CheckResult, files_match, Verdict, check_file, check_loop}
use omnistorage.Sync.CheckLaws.{
  compared_count, check_file_lem, contains-erase, check_loop-Classified,
}
use omnistorage.Sync.CheckVerdicts.{
  Agree, files_match-Agree, failed_paths, Listed, Listed-treated, InLists, is_same, is_different,
  is_failure, added-InLists, one_sided, Round, check_loop-Round, skipped_dir,
}

module _ {W : Type 0} (opts : Options) (S D : Backend W) (src dst : Bytes) where
  says_same : Result Bool → Bool
  says_same (ok b) = b
  says_same _ = false

  says_different : Result Bool → Bool
  says_different (ok b) = not b
  says_different _ = false

  says_error : Result Bool → Bool
  says_error (err e) = true
  says_error _ = false

  verdict_with :
      (f g : FileInfo) (w : W) {v : Verdict}
      → (check_file opts S D src dst f (some g) w).0 ≡ ok v
      → (is_same v ≡ says_same (files_match opts S D src dst f g w).0)
        × (is_different v ≡ says_different (files_match opts S D src dst f g w).0)
        × (is_failure v ≡ says_error (files_match opts S D src dst f g w).0)
  unfolding check_file is_same is_different is_failure says_same says_different says_error
  verdict_with f g w {v} h = ground arith

  -- A path that is not of both sides has no verdict.
  no_verdict :
      (q : Bytes) (fs : List FileInfo) (m : Dict Bytes FileInfo) (w : W) (r : CheckResult)
      → DistinctPaths fs
      → (check_loop opts S D src dst fs m w).0 ≡ ok r
      → treated q fs && Dict.contains q m ≡ false
      → InLists q r false false false
  unfolding treated Round
  no_verdict q [] m w r distinct h k =
      unfold check_loop in unfold mem in unfold failed_paths in ground (arith, h)
  no_verdict q (f ∷ fs) m w r (fresh, distinct) h k = elim (Bool-cases f.is_dir) [
    | inl e ↦
        no_verdict q fs m w r distinct (skipped_dir opts S D src dst f fs m w r e h)
          (ground (arith, e, k))
    | inr e ↦
        let (v, r', first, second, eq) = check_loop-Round opts S D src dst f fs m w r e h in
        let here = check_file_lem opts S D src dst f m w first in
        let rest =
          no_verdict q fs (Dict.erase f.path m)
            (check_file opts S D src dst f (Dict.lookup f.path m) w).1 r' distinct second in
        ground (
          arith,
          k,
          here,
          rest,
          fresh e,
          one_sided v,
          added-InLists f v r r' q eq,
          contains-erase opts S D src dst f.path q m,
        )
  ]

  -- The state in which the loop looks at `f`: the files listed in front of it have been looked at,
  -- each with what the destination has at its path, and nothing else was done.
  abbrev pub LookedAt : FileInfo → List FileInfo → Dict Bytes FileInfo → W → W → Type 0
  LookedAt f [] m w w' = ⊥
  LookedAt f (x ∷ fs) m w w' =
      ((x.is_dir ≡ true) × LookedAt f fs m w w')
      ⊎ ((x.is_dir ≡ false)
          × (((f ≡ x) × (w' ≡ w))
              ⊎ LookedAt f fs (Dict.erase x.path m)
                  (check_file opts S D src dst x (Dict.lookup x.path m) w).1 w'))

  -- A file of both sides has the verdict of the comparison the loop makes for it.
  compared_verdict :
      (f g : FileInfo) (fs : List FileInfo) (m : Dict Bytes FileInfo) (w : W) (r : CheckResult)
      → DistinctPaths fs
      → (check_loop opts S D src dst fs m w).0 ≡ ok r
      → Listed f fs
      → Dict.lookup f.path m ≡ some g
      → (w' : W) × LookedAt f fs m w w'
        × InLists f.path r
            (says_same (files_match opts S D src dst f g w').0)
            (says_different (files_match opts S D src dst f g w').0)
            (says_error (files_match opts S D src dst f g w').0)
  unfolding Round
  compared_verdict f g [] m w r distinct h listed k = absurd listed
  compared_verdict f g (x ∷ fs) m w r (fresh, distinct) h listed k = elim (Bool-cases x.is_dir) [
    | inl e ↦
        let later : Listed f fs = elim listed [
          | inl (_, e') ↦ absurd (ground (arith, e, e'))
          | inr l ↦ l
        ] in
        let (w', looked, rest) =
          compared_verdict f g fs m w r distinct (skipped_dir opts S D src dst x fs m w r e h) later
            k in
        (w', inl (e, looked), rest)
    | inr e ↦
        let (v, r', first, second, eq) = check_loop-Round opts S D src dst x fs m w r e h in
        let w1 = (check_file opts S D src dst x (Dict.lookup x.path m) w).1 in
        elim listed [
          | inl (same_file, _) ↦
              let same_path : f.path ≡ x.path = ap (λ (y : FileInfo). y.path) same_file in
              let rest = no_verdict f.path fs (Dict.erase x.path m) w1 r' distinct second in
              let seen : (check_file opts S D src dst f (some g) w).0 ≡ ok v =
                sym (ap (λ o. (check_file opts S D src dst f o w).0) k)
                ∙ ap (λ y. (check_file opts S D src dst y (Dict.lookup y.path m) w).0) same_file
                ∙ first in
              (
                w,
                inr (e, inl (same_file, refl)),
                ground (
                  arith,
                  rest,
                  fresh e,
                  same_path,
                  verdict_with f g w seen,
                  added-InLists x v r r' f.path eq,
                  contains-erase opts S D src dst x.path f.path m,
                ),
              )
          | inr l ↦
              let other : f.path == x.path ≡ false =
                ground (arith, fresh e, Listed-treated f fs l) in
              let (w', looked, rest) =
                compared_verdict f g fs (Dict.erase x.path m) w1 r' distinct second l
                  (ground (arith, other, k, Dict.lookup-erase f.path x.path m)) in
              (
                w',
                inr (e, inr looked),
                ground (arith, rest, other, added-InLists x v r r' f.path eq),
              )
        ]
  ]

  -- What the result says of a file with a counterpart: the lists its path is in, by what the files
  -- have in common in the state in which they were compared.
  abbrev pub Judged : FileInfo → FileInfo → CheckResult → W → Type 0
  Judged f g r w =
      let answer = (files_match opts S D src dst f g w).0 in
      ((mem f.path r.matching ≡ true) ↔ Agree opts S D src dst f g w)
      × ((mem f.path r.differ ≡ true) ↔ (answer ≡ ok false))
      × ((mem f.path (failed_paths r.errors) ≡ true) ↔ ((e : Error) × (answer ≡ err e)))

  says-Judged :
      (f g : FileInfo) (r : CheckResult) (w : W)
      → InLists f.path r
          (says_same (files_match opts S D src dst f g w).0)
          (says_different (files_match opts S D src dst f g w).0)
          (says_error (files_match opts S D src dst f g w).0)
      → Judged f g r w
  unfolding says_same says_different says_error
  says-Judged f g r w (matches, differs, fails) =
      let agree = files_match-Agree opts S D src dst f g w in
      elim (Result-cases (files_match opts S D src dst f g w).0) [
        | inl (true, e) ↦ (
          (λ _. agree.0 e, λ _. ground (arith, e, matches)),
          ground (arith, e, differs),
          ground (arith, e, fails),
        )
        | inl (false, e) ↦ (
          (λ k. ground (arith, e, matches, k), λ a. ground (arith, e, agree.1 a)),
          ground (arith, e, differs),
          ground (arith, e, fails),
        )
        | inr (inl (x, e)) ↦ (
          (λ k. ground (arith, e, matches, k), λ a. ground (arith, e, agree.1 a)),
          ground (arith, e, differs),
          ground (arith, e, fails),
        )
        | inr (inr e) ↦ (
          (λ k. ground (arith, e, matches, k), λ a. ground (arith, e, agree.1 a)),
          ground (arith, e, differs),
          ground (arith, e, fails),
        )
      ]

  -- If the loop of `Check` gives a result for source files of distinct paths and a map of the
  -- destination's files, then the result names as many files as the source lists, directories left
  -- out. A path is in `SrcOnly` exactly when it is listed and not in the map, in `DstOnly` exactly
  -- when it is in the map and not listed; and a path that is not both listed and in the map is
  -- neither in `Match` nor in `Differ` nor among the errors. A listed file with a counterpart in
  -- the map is compared in the state in which the files before it have been looked at: its path is
  -- in `Match` exactly when the two agree as the options say, in `Differ` exactly when the
  -- comparison says no, and among the errors exactly when it fails.
  pub check_exact :
      (fs : List FileInfo) (m : Dict Bytes FileInfo) (w : W) (r : CheckResult)
      → DistinctPaths fs
      → (check_loop opts S D src dst fs m w).0 ≡ ok r
      → (compared_count r ≡ plain_count fs)
        × ((q : Bytes)
            → (mem q r.src_only ≡ (treated q fs && not (Dict.contains q m)))
              × (mem q r.dst_only ≡ (Dict.contains q m && not (treated q fs)))
              × (treated q fs && Dict.contains q m ≡ false → InLists q r false false false))
        × ((f g : FileInfo)
            → Listed f fs
            → Dict.lookup f.path m ≡ some g
            → (w' : W) × LookedAt f fs m w w' × Judged f g r w')
  check_exact fs m w r distinct h = (
    (check_loop-Classified opts S D src dst [] fs m w r distinct h).0,
    (λ q.
        let (_, src_only, dst_only) =
          check_loop-Classified opts S D src dst q fs m w r distinct h in
        (src_only, dst_only, no_verdict q fs m w r distinct h)),
    (λ f g listed found.
        let (w', looked, lists) = compared_verdict f g fs m w r distinct h listed found in
        (w', looked, says-Judged f g r w' lists)),
  )
