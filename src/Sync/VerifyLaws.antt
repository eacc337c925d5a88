-- ===== src/Sync/VerifyLaws.antt =====
-- What a verification of a file has seen.
use mathlib.Core.List.{flatten}
use omnistorage.Base.{
  Bytes, bytes_eq, ◌≡◌, ◌≢◌, ◌⊎◌, inl, inr, true, ◌&&◌, [], none, some, ok, arith, ◌==◌,
  Result-cases, Option-cases, Bool-cases,
}
use omnistorage.Base.Int.{int_eq}
use omnistorage.Paths.Clean.{path_join}
use omnistorage.Features.{hash_md5}
use omnistorage.Backends.{ObjectInfo, Stream, Extended, Backend}
use omnistorage.Sync.Options.{is_known}
use omnistorage.Sync.Content.{is_end, compare_content}
use omnistorage.Sync.ContentLaws.{compare_content_exact}
use omnistorage.Sync.Verify.{compare_infos, compare_files, verify_file}

module _ {W : Type 0} (S D : Backend W) (src dst : Bytes) where
  -- Both files were read, from the state `w`, and gave the same bytes, to what passes for an end.
  abbrev pub SameBytes : W → Type 0
  SameBytes w =
      (a : Stream) × (b : Stream) × ((S.new_reader (path_join [] src) w).0 ≡ ok a)
      × ((D.new_reader (path_join [] dst) (S.new_reader (path_join [] src) w).1).0 ≡ ok b)
      × (flatten a.chunks ≡ flatten b.chunks)
      × (is_end a.failure ≡ true)
      × (is_end b.failure ≡ true)

  -- Two descriptions have one size and one hash, which is known.
  abbrev pub SameInfos : ObjectInfo → ObjectInfo → Type 0
  SameInfos a b = (a.size ≡ b.size) × (a.hash hash_md5 ≢ []) × (a.hash hash_md5 ≡ b.hash hash_md5)

  contents_lem :
      (w : W)
      → (compare_content S D (path_join [] src) (path_join [] dst) w).0 ≡ ok true
      → SameBytes w
  contents_lem w e =
      let p = path_join [] src in
      let q = path_join [] dst in
      elim (Result-cases (S.new_reader p w).0) [
        | inl (a, k) ↦ elim (Result-cases (D.new_reader q (S.new_reader p w).1).0) [
          | inl (b, l) ↦
              let (_, exact) = compare_content_exact S D p q w a b k l in
              let (x, y, z) = exact.0 e in (a, b, k, l, x, y, z)
          | inr (inl (x, l)) ↦ absurd (unfold compare_content in ground arith)
          | inr (inr l) ↦ absurd (unfold compare_content in ground arith)
        ]
        | inr (inl (x, k)) ↦ absurd (unfold compare_content in ground arith)
        | inr (inr k) ↦ absurd (unfold compare_content in ground arith)
      ]

  infos_lem :
      (a b : ObjectInfo) (w : W)
      → (compare_infos a b (compare_content S D (path_join [] src) (path_join [] dst)) w).0
        ≡ ok true
      → SameInfos a b ⊎ SameBytes w
  unfolding compare_infos
  infos_lem a b w e =
      let x = a.hash hash_md5 in
      let y = b.hash hash_md5 in
      elim (Bool-cases (a.size == b.size)) [
        | inl k ↦ elim (Bool-cases (is_known x && is_known y)) [
          | inl l ↦ inl (ground arith, (λ m. ground arith), ground arith)
          | inr l ↦ inr (contents_lem w (ground arith))
        ]
        | inr k ↦ absurd (ground arith)
      ]

  -- What a `VerifyFile` that says yes has seen behind the two checks, from the state `w`: one of the
  -- backends describes no files, and the contents are the same; or `Stat` of both describes them, one
  -- after the other, and the descriptions are the same or the contents behind them are.
  abbrev pub Compared : W → Type 0
  Compared w =
      (((S.extended ≡ none) ⊎ (D.extended ≡ none)) × SameBytes w)
      ⊎ ((x : Extended W) × (y : Extended W) × (S.extended ≡ some x)
          × (D.extended ≡ some y)
          × (a : ObjectInfo) × (b : ObjectInfo) × ((x.stat src w).0 ≡ ok a)
          × ((y.stat dst (x.stat src w).1).0 ≡ ok b)
          × (SameInfos a b ⊎ SameBytes (y.stat dst (x.stat src w).1).1))

  compare_files_lem : (w : W) → (compare_files S D src dst w).0 ≡ ok true → Compared w
  unfolding compare_files
  compare_files_lem w e = elim (Option-cases S.extended) [
    | inl k ↦ inl (inl k, contents_lem w (ground arith))
    | inr (x, k) ↦ elim (Option-cases D.extended) [
      | inl l ↦ inl (inr l, contents_lem w (ground arith))
      | inr (y, l) ↦
          let first = x.stat src w in
          let second = y.stat dst first.1 in
          elim (Result-cases first.0) [
            | inl (a, m) ↦ elim (Result-cases second.0) [
              | inl (b, o) ↦ inr (x, y, k, l, a, b, m, o, infos_lem a b second.1 (ground arith))
              | inr (inl (z, o)) ↦ absurd (ground arith)
              | inr (inr o) ↦ absurd (ground arith)
            ]
            | inr (inl (z, m)) ↦ absurd (ground arith)
            | inr (inr m) ↦ absurd (ground arith)
          ]
    ]
  ]

  -- A `VerifyFile` that says yes has found that both files exist, and then: if `Stat` of one of the
  -- backends is not to be had, it has read both files to an end and got the same bytes; otherwise
  -- `Stat` of both has given the same size and the same known hash, or it has read both files, behind
  -- these calls, to an end and got the same bytes.
  pub verify_file-true :
      (w : W)
      → (verify_file S D src dst w).0 ≡ ok true
      → ((S.exists src w).0 ≡ ok true)
        × ((D.exists dst (S.exists src w).1).0 ≡ ok true)
        × Compared (D.exists dst (S.exists src w).1).1
  unfolding verify_file
  verify_file-true w e =
      let t = D.exists dst (S.exists src w).1 in
      (ground arith, ground arith, compare_files_lem t.1 (ground arith))
