-- ===== src/Sync/CheckLaws.antt =====
-- `Check`: each file is found in one place, and times are the same within a second, or so far
-- apart that their difference is not a `Duration`.
use omnistorage.Base.{
  ℕ, suc, ◌+◌, ◌≤◌, Bytes, bytes_eq, nat_eq, ◌≡◌, refl, sym, ap, ◌∙◌, ◌↔◌, ◌⊎◌, inl, inr, Bool,
  true, false, not, ◌&&◌, ◌||◌, List, [], ◌∷◌, ok, arith, ◌==◌, length, Bool-cases,
}
use omnistorage.Base.Action.{Action, ◌>>=◌, >>=-eq-ok, pure}
use omnistorage.Base.Dict
use omnistorage.Base.Dict.{Dict, NodupKeys}
use omnistorage.Base.Sort.{mem}
use omnistorage.Backends.{Backend}
use omnistorage.Sync.Options.{Options, FileInfo}
use omnistorage.Sync.CompareLaws.{treated, plain_count, DistinctPaths}
use omnistorage.Sync.Check.{
  CheckResult, int64_bound, duration, times_differ, Verdict, same, different, only_in_src,
  not_compared, add_verdict, keys, check_file, check_loop,
}

-- Two times pass for the same exactly when they are at most a second apart, or the second is
-- 2 ^ 63 nanoseconds or more behind the first: then the difference is the least `Duration`, which
-- stays negative when its sign is changed.
pub times_differ_iff :
    (t u : ℕ)
    → (times_differ t u ≡ false)
      ↔ (((t ≤ u + 1000000000) × (u ≤ t + 1000000000)) ⊎ (t + int64_bound ≤ u))
unfolding times_differ duration
times_differ_iff t u = ground arith

mem-keys : (q : Bytes) (m : Dict Bytes FileInfo) → mem q (keys m) ≡ Dict.contains q m
unfolding keys mem Dict.lookup Dict.contains
mem-keys q [] = refl
mem-keys q ((p, f) ∷ m) = ground (arith, mem-keys q m)

-- How many files a result names, those that could not be compared included.
abbrev pub compared_count : CheckResult → ℕ
compared_count r = length r.matching + length r.differ + length r.src_only + length r.errors

abbrev pub is_only_in_src : Verdict → Bool
is_only_in_src only_in_src = true
is_only_in_src _ = false

pub add_verdict_lem :
    (f : FileInfo) (v : Verdict) (r : CheckResult) (q : Bytes)
    → (compared_count (add_verdict f v r) ≡ suc (compared_count r))
      × ((add_verdict f v r).dst_only ≡ r.dst_only)
      × (mem q (add_verdict f v r).src_only ≡ (is_only_in_src v && q == f.path || mem q r.src_only))
unfolding add_verdict mem
add_verdict_lem f same r q = (omega arith, refl, refl)
add_verdict_lem f different r q = (omega arith, refl, refl)
add_verdict_lem f only_in_src r q = (omega arith, refl, refl)
add_verdict_lem f (not_compared e) r q = (omega arith, refl, refl)

module _ {W : Type 0} (opts : Options) (S D : Backend W) (src dst : Bytes) where
  pub check_file_lem :
      (f : FileInfo) (m : Dict Bytes FileInfo) (w : W) {v : Verdict}
      → (check_file opts S D src dst f (Dict.lookup f.path m) w).0 ≡ ok v
      → is_only_in_src v ≡ not (Dict.contains f.path m)
  unfolding check_file Dict.contains
  check_file_lem f m w {v} h = ground arith

  pub contains-erase :
      (p q : Bytes) (m : Dict Bytes FileInfo)
      → Dict.contains q (Dict.erase p m) ≡ (not (q == p) && Dict.contains q m)
  unfolding Dict.contains
  contains-erase p q m = ground (arith, Dict.lookup-erase q p m)

  abbrev pub rest_of :
      FileInfo → List FileInfo → Dict Bytes FileInfo → Verdict → Action W CheckResult
  rest_of f fs m v =
      check_loop opts S D src dst fs (Dict.erase f.path m) >>= λ r. pure (add_verdict f v r)

  pub check_loop_file :
      (f : FileInfo) (fs : List FileInfo) (m : Dict Bytes FileInfo) (w : W)
      → f.is_dir ≡ false
      → check_loop opts S D src dst (f ∷ fs) m w
        ≡ (check_file opts S D src dst f (Dict.lookup f.path m) >>= rest_of f fs m) w
  unfolding check_loop
  check_loop_file f fs m w e = simp e

  abbrev pub Classified : List FileInfo → Dict Bytes FileInfo → CheckResult → Bytes → Type 0
  Classified fs m r q =
      (compared_count r ≡ plain_count fs)
      × (mem q r.src_only ≡ (treated q fs && not (Dict.contains q m)))
      × (mem q r.dst_only ≡ (Dict.contains q m && not (treated q fs)))

  pub check_loop-Classified :
      (q : Bytes) (fs : List FileInfo) (m : Dict Bytes FileInfo) (w : W) (r : CheckResult)
      → DistinctPaths fs
      → (check_loop opts S D src dst fs m w).0 ≡ ok r
      → Classified fs m r q
  unfolding treated plain_count
  check_loop-Classified q [] m w r distinct h =
      unfold check_loop in unfold mem in ground (arith, mem-keys q m)
  check_loop-Classified q (f ∷ fs) m w r (fresh, distinct) h = elim (Bool-cases f.is_dir) [
    | inl e ↦
        let k : (check_loop opts S D src dst fs m w).0 ≡ ok r = unfold check_loop in ground arith in
        ground (arith, check_loop-Classified q fs m w r distinct k)
    | inr e ↦
        let look = check_file opts S D src dst f (Dict.lookup f.path m) in
        let k = sym (ap (λ t. t.0) (check_loop_file f fs m w e)) ∙ h in
        let (v, first, eq) = >>=-eq-ok look (rest_of f fs m) w k in
        let w' = (look w).1 in
        let (r', second, eq') =
          >>=-eq-ok (check_loop opts S D src dst fs (Dict.erase f.path m))
            (λ r. pure (add_verdict f v r)) w' (sym (ap (λ t. t.0) eq) ∙ k) in
        let last : ok (add_verdict f v r') ≡ ok r = sym (ap (λ t. t.0) (eq ∙ eq')) ∙ k in
        ground (
          arith,
          last,
          fresh e,
          check_file_lem f m w first,
          add_verdict_lem f v r' q,
          contains-erase f.path q m,
          check_loop-Classified q fs (Dict.erase f.path m) w' r' distinct second,
        )
  ]
