-- ===== src/Sync/CheckVerdicts.antt =====
-- What `Check` says of each file, and when two files are the same for it.
use omnistorage.Base.{
  ℕ, ◌+◌, ◌≤◌, Bytes, bytes_eq, nat_eq, ◌≡◌, refl, sym, ap, ◌∙◌, ◌↔◌, ◌⊎◌, inl, inr, Bool, true,
  false, ◌&&◌, ◌||◌, List, [], ◌∷◌, ok, arith, ◌==◌, Bool-cases,
}
use omnistorage.Base.Int.{int_eq}
use omnistorage.Base.Action.{>>=-eq-ok, pure}
use omnistorage.Base.Dict
use omnistorage.Base.Dict.{Dict}
use omnistorage.Base.Sort.{mem}
use omnistorage.Paths.Clean.{path_join}
use omnistorage.Backends.{Backend}
use omnistorage.Sync.Options.{Options, FileInfo, FileError, is_known}
use omnistorage.Sync.CompareLaws.{treated}
use omnistorage.Sync.Content.{compare_content}
use omnistorage.Sync.Check.{
  CheckResult, int64_bound, files_match, Verdict, same, different, only_in_src, not_compared,
  add_verdict, check_file, check_loop,
}
use omnistorage.Sync.CheckLaws.{times_differ_iff, rest_of, check_loop_file, is_only_in_src}

-- Two times are at most a second apart, or the second is so far behind the first that their
-- difference is the least `Duration`.
abbrev pub SameTime : ℕ → ℕ → Type 0
SameTime t u = ((t ≤ u + 1000000000) × (u ≤ t + 1000000000)) ⊎ (t + int64_bound ≤ u)

module _ {W : Type 0} (opts : Options) (S D : Backend W) (src dst : Bytes) where
  -- What two files have to have in common, as the options say, when the state is `w`: the size; with
  -- a checksum the hash, or the contents if one hash is not known; and without one the time.
  abbrev pub Agree : FileInfo → FileInfo → W → Type 0
  Agree f g w =
      (opts.ignore_size ≡ false → f.size ≡ g.size)
      × (opts.checksum ≡ false → opts.ignore_time ≡ false → SameTime f.mod_time g.mod_time)
      × (opts.checksum ≡ true
          → (is_known f.hash && is_known g.hash ≡ true → f.hash ≡ g.hash)
            × (is_known f.hash && is_known g.hash ≡ false
                → (compare_content S D (path_join src f.path) (path_join dst g.path) w).0
                  ≡ ok true))

  pub files_match-Agree :
      (f g : FileInfo) (w : W) → ((files_match opts S D src dst f g w).0 ≡ ok true) ↔ Agree f g w
  unfolding files_match
  files_match-Agree f g w =
      let time = times_differ_iff f.mod_time g.mod_time in
      elim (Bool-cases opts.checksum) [
        | inl k ↦ ground (
          arith,
          k,
          Bool-cases opts.ignore_size,
          Bool-cases (f.size == g.size),
          Bool-cases (is_known f.hash && is_known g.hash),
        )
        | inr k ↦ ground (
          arith,
          k,
          time,
          Bool-cases opts.ignore_size,
          Bool-cases (f.size == g.size),
          Bool-cases opts.ignore_time,
        )
      ]

-- The paths of the files that could not be compared.
unfoldable pub failed_paths : List FileError → List Bytes
failed_paths [] = []
failed_paths (e ∷ es) = e.path ∷ failed_paths es

-- A file of a listing that is no directory.
abbrev pub Listed : FileInfo → List FileInfo → Type 0
Listed f [] = ⊥
Listed f (h ∷ fs) = ((f ≡ h) × (h.is_dir ≡ false)) ⊎ Listed f fs

pub Listed-treated : (f : FileInfo) (fs : List FileInfo) → Listed f fs → treated f.path fs ≡ true
unfolding treated
Listed-treated f [] l = absurd l
Listed-treated f (h ∷ fs) (inl (e, k)) =
    let same_path : f.path ≡ h.path = ap (λ (x : FileInfo). x.path) e in
    ground (arith, k, same_path)
Listed-treated f (h ∷ fs) (inr l) = ground (arith, Listed-treated f fs l)

-- A path is in the first, in the second or in the third of the lists of verdicts.
abbrev pub InLists : Bytes → CheckResult → Bool → Bool → Bool → Type 0
InLists q r matches differs fails =
    (mem q r.matching ≡ matches)
    × (mem q r.differ ≡ differs)
    × (mem q (failed_paths r.errors) ≡ fails)

unfoldable pub is_same : Verdict → Bool
is_same same = true
is_same _ = false

unfoldable pub is_different : Verdict → Bool
is_different different = true
is_different _ = false

unfoldable pub is_failure : Verdict → Bool
is_failure (not_compared e) = true
is_failure _ = false

add_verdict-InLists :
    (f : FileInfo) (v : Verdict) (r : CheckResult) (q : Bytes)
    → InLists q
        (add_verdict f v r)
        (is_same v && q == f.path || mem q r.matching)
        (is_different v && q == f.path || mem q r.differ)
        (is_failure v && q == f.path || mem q (failed_paths r.errors))
unfolding add_verdict mem failed_paths is_same is_different is_failure
add_verdict-InLists f same r q = (refl, refl, refl)
add_verdict-InLists f different r q = (refl, refl, refl)
add_verdict-InLists f only_in_src r q = (refl, refl, refl)
add_verdict-InLists f (not_compared e) r q = (refl, refl, refl)

pub added-InLists :
    (f : FileInfo) (v : Verdict) (r r' : CheckResult) (q : Bytes)
    → r ≡ add_verdict f v r'
    → InLists q r
        (is_same v && q == f.path || mem q r'.matching)
        (is_different v && q == f.path || mem q r'.differ)
        (is_failure v && q == f.path || mem q (failed_paths r'.errors))
added-InLists f v r r' q e =
    let (matches, differs, fails) = add_verdict-InLists f v r' q in
    (
      ap (λ (x : CheckResult). mem q x.matching) e ∙ matches,
      ap (λ (x : CheckResult). mem q x.differ) e ∙ differs,
      ap (λ (x : CheckResult). mem q (failed_paths x.errors)) e ∙ fails,
    )

pub one_sided :
    (v : Verdict)
    → is_only_in_src v ≡ true
    → (is_same v ≡ false) × (is_different v ≡ false) × (is_failure v ≡ false)
unfolding is_same is_different is_failure
one_sided only_in_src h = (refl, refl, refl)
one_sided same h = ground (arith, h)
one_sided different h = ground (arith, h)
one_sided (not_compared e) h = ground (arith, h)

module _ {W : Type 0} (opts : Options) (S D : Backend W) (src dst : Bytes) where
  -- A round of the loop for a file that is no directory: its verdict, and the rest of the loop.
  unfoldable pub Round : FileInfo → List FileInfo → Dict Bytes FileInfo → W → CheckResult → Type 0
  Round f fs m w r =
      (v : Verdict) × (r' : CheckResult) × ((check_file opts S D src dst f (Dict.lookup f.path m)
          w).0
        ≡ ok v)
      × ((check_loop opts S D src dst fs (Dict.erase f.path m)
            (check_file opts S D src dst f (Dict.lookup f.path m) w).1).0
          ≡ ok r')
      × (r ≡ add_verdict f v r')

  pub check_loop-Round :
      (f : FileInfo) (fs : List FileInfo) (m : Dict Bytes FileInfo) (w : W) (r : CheckResult)
      → f.is_dir ≡ false
      → (check_loop opts S D src dst (f ∷ fs) m w).0 ≡ ok r
      → Round f fs m w r
  unfolding Round
  check_loop-Round f fs m w r e h =
      let look = check_file opts S D src dst f (Dict.lookup f.path m) in
      let k = sym (ap (λ t. t.0) (check_loop_file opts S D src dst f fs m w e)) ∙ h in
      let (v, first, eq) = >>=-eq-ok look (rest_of opts S D src dst f fs m) w k in
      let (r', second, eq') =
        >>=-eq-ok (check_loop opts S D src dst fs (Dict.erase f.path m))
          (λ r. pure (add_verdict f v r)) (look w).1 (sym (ap (λ t. t.0) eq) ∙ k) in
      let last : ok (add_verdict f v r') ≡ ok r = sym (ap (λ t. t.0) (eq ∙ eq')) ∙ k in
      (v, r', first, second, cc)

  pub skipped_dir :
      (f : FileInfo) (fs : List FileInfo) (m : Dict Bytes FileInfo) (w : W) (r : CheckResult)
      → f.is_dir ≡ true
      → (check_loop opts S D src dst (f ∷ fs) m w).0 ≡ ok r
      → (check_loop opts S D src dst fs m w).0 ≡ ok r
  unfolding check_loop
  skipped_dir f fs m w r e h = ground (arith, e, h)
