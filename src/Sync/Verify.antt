-- ===== src/Sync/Verify.antt =====
-- sync/verify.go: a single file, the details of a verification, and whether files can be read.
use omnistorage.Base.{
  ℕ, ◌+◌, Bytes, bytes_eq, nat_eq, Bool, true, false, not, ◌&&◌, List, [], ◌∷◌, codes, none, some,
  message, wrapped, ok, err, panic, if◌then◌else◌, ◌==◌, length, ltb,
}
use omnistorage.Base.Int.{int_eq}
use omnistorage.Base.Action.{Action, ◌>>=◌, ◌>>◌, pure, fail_when}
use omnistorage.Paths.Clean.{path_join}
use omnistorage.Features.{hash_md5}
use omnistorage.Backends.{ObjectInfo, Backend}
use omnistorage.Sync.Options.{Options, FileError, is_known, default_options}
use omnistorage.Sync.Listing.{Environment}
use omnistorage.Sync.Content.{compare_content}
use omnistorage.Sync.Check.{CheckResult, check, in_sync, verify}

pub record VerifyResult : Type 0 where
  pub verified : Bool
  pub total_files : ℕ
  pub matching_files : ℕ
  pub mismatched_files : List Bytes
  pub missing_in_dst : List Bytes
  pub extra_in_dst : List Bytes
  pub errors : List FileError

-- What `VerifyWithDetails` makes of the result of `Check`.
unfoldable pub details_of : CheckResult → VerifyResult
details_of r = record {
  verified = in_sync r;
  total_files = length r.matching + length r.differ + length r.src_only + length r.dst_only;
  matching_files = length r.matching;
  mismatched_files = r.differ;
  missing_in_dst = r.src_only;
  extra_in_dst = r.dst_only;
  errors = r.errors;
}

-- The path that is opened for a path of the listing.
abbrev listed_at : Bytes → Bytes → Bytes
listed_at base p =
    if not (base == []) && ltb (length base) (length p)
    then p
    else if base == []
    then p
    else path_join base p

module _ {W : Type 0} where
  unfoldable pub verify_with_details :
      Environment → Options → Backend W → Backend W → Bytes → Bytes → Action W VerifyResult
  unfolding details_of
  verify_with_details env opts S D src dst = check opts S D src dst env >>= λ r. pure (details_of r)

  -- `VerifyChecksum` and `QuickVerify`
  unfoldable pub verify_checksum :
      Environment → Backend W → Backend W → Bytes → Bytes → Action W Bool
  verify_checksum env = verify env (record default_options { checksum = true })

  unfoldable pub quick_verify : Environment → Backend W → Backend W → Bytes → Bytes → Action W Bool
  quick_verify env = verify env (record default_options { size_only = true })

  -- The two sizes, then the two hashes, if both are known, and then the contents.
  unfoldable pub compare_infos : ObjectInfo → ObjectInfo → Action W Bool → Action W Bool
  compare_infos a b contents =
      let x = a.hash hash_md5 in
      let y = b.hash hash_md5 in
      if a.size == b.size
      then (if is_known x && is_known y then pure (x == y) else contents)
      else pure false

  -- The part of `VerifyFile` behind the checks that both files exist.
  unfoldable pub compare_files : Backend W → Backend W → Bytes → Bytes → Action W Bool
  unfolding compare_infos
  compare_files S D src dst =
      let contents = compare_content S D (path_join [] src) (path_join [] dst) in
      elim S.extended [
        | none ↦ contents
        | some x ↦ elim D.extended [
          | none ↦ contents
          | some y ↦ x.stat src >>= λ a. y.stat dst >>= λ b. compare_infos a b contents
        ]
      ]

  unfoldable pub verify_file : Backend W → Backend W → Bytes → Bytes → Action W Bool
  unfolding compare_files
  verify_file S D src dst = do
    there ← S.exists src
    fail_when (not there) (message "source file not found" src)
    there' ← D.exists dst
    if there' then compare_files S D src dst else pure false

  -- `VerifyIntegrity`: the loop of reads ends at `io.EOF` or at the failure of the stream.
  unfoldable pub verify_integrity : Backend W → Bytes → Action W (Unit {0})
  verify_integrity B p w =
      let (r, w') = B.new_reader p w in
      elim r [
        | err e ↦ (err (wrapped e (codes "failed to open file")), w')
        | panic ↦ (panic, w')
        | ok stream ↦ elim stream.failure [ none ↦ (ok tt, w') | some e ↦ (err (wrapped e p), w') ]
      ]

  unfoldable pub corrupted_among : Backend W → Bytes → List Bytes → Action W (List Bytes)
  unfolding verify_integrity
  corrupted_among B base [] w = (ok [], w)
  corrupted_among B base (p ∷ ps) w =
      let (r, w') = verify_integrity B (listed_at base p) w in
      elim r [
        | ok _ ↦ corrupted_among B base ps w'
        | err _ ↦ (corrupted_among B base ps >>= λ rest. pure (p ∷ rest)) w'
        | panic ↦ (panic, w')
      ]

  unfoldable pub verify_all_integrity : Backend W → Bytes → Action W (List Bytes)
  unfolding corrupted_among
  verify_all_integrity B base = B.list base >>= λ paths. corrupted_among B base paths
