-- ===== src/Tests/Drive.antt =====
-- A small drive as a backend, an operation that fails for a while, and runs of what needs them.
use omnistorage.Base.{
  ℕ, zero, suc, Bytes, bytes_eq, nat_eq, ◌≡◌, refl, true, false, List, [], ◌∷◌, ◌++◌, codes, none,
  some, ok, err, not_found, message, retry_error, arith, if◌then◌else◌,
}
use omnistorage.Base.Int.{pos}
use omnistorage.Base.Action.{Action}
use omnistorage.Base.Dict
use omnistorage.Base.Dict.{Dict}
use omnistorage.Paths.Text.{has_prefix}
use omnistorage.Features.{HashType, Features, hash_md5, hash_sha1, hash_sha256}
use omnistorage.Backends.{Stream, Backend}
use omnistorage.Transfer.{copy_path, copy_and_close, io_copy}
use omnistorage.Transfer.Laws.{Written, copy_path_ok}
use omnistorage.Retry.{RetryConfig, Waits, retry_operation}
use omnistorage.Retry.Laws.{not_once, again, retry_succeeds, retry_exhausted}

abbrev pub Drive : Type 0
Drive = Dict Bytes Bytes

abbrev paths_under : Bytes → Drive → List Bytes
paths_under prefix [] = []
paths_under prefix ((p, _) ∷ d) =
    let rest = paths_under prefix d in if has_prefix p prefix then p ∷ rest else rest

abbrev pub content : Bytes → Drive → Bytes
content p d = elim (Dict.lookup p d) [ none ↦ [] | some bytes ↦ bytes ]

abbrev pub drive : Backend Drive
drive = record {
  Writer = Bytes;
  list = λ prefix d. (ok (paths_under prefix d), d);
  exists = λ p d. (ok (Dict.contains p d), d);
  delete = λ p d. (ok tt, Dict.erase p d);
  new_reader = λ p d. (
    elim (Dict.lookup p d) [
      | none ↦ err not_found
      | some bytes ↦ ok (record { chunks = bytes ∷ []; failure = none })
    ],
    d,
  );
  new_writer = λ p opts d. (ok p, Dict.insert p [] d);
  write = λ p bytes d. (ok tt, Dict.insert p (content p d ++ bytes) d);
  close = λ p d. (ok tt, d);
  extended = none;
}

abbrev pub files : Drive
files = (codes "s/a", codes "one") ∷ (codes "s/b", codes "two") ∷ (codes "d/b", codes "old") ∷ []

-- What the runs below compute through.
unfoldable pub looked_up : Bytes → Drive → Bytes
unfolding bytes_eq nat_eq Dict.lookup Dict.insert Dict.erase Dict.contains has_prefix
looked_up p d = content p d

copied : (copy_path drive (codes "s/a") drive (codes "d/a") [] files).0 ≡ ok tt
unfolding copy_path copy_and_close io_copy looked_up
copied = refl

copied_there :
    looked_up (codes "d/a") (copy_path drive (codes "s/a") drive (codes "d/a") [] files).1
    ≡ codes "one"
unfolding copy_path copy_and_close io_copy looked_up
copied_there = refl

copy_path_ok_example :
    (stream : Stream) × (w : Bytes) × (t : Drive) × ((drive.new_reader (codes "s/a") files).0
      ≡ ok stream)
    × ((drive.new_writer (codes "d/a") [] (drive.new_reader (codes "s/a") files).1).0 ≡ ok w)
    × (stream.failure ≡ none)
    × Written drive w stream.chunks
        (drive.new_writer (codes "d/a") [] (drive.new_reader (codes "s/a") files).1).1
        t
    × ((drive.close w t).0 ≡ ok tt)
    × ((copy_path drive (codes "s/a") drive (codes "d/a") [] files).1 ≡ (drive.close w t).1)
copy_path_ok_example = copy_path_ok drive drive (codes "s/a") (codes "d/a") [] files copied

-- The first call fails, and later ones succeed.
abbrev flaky : Action ℕ ℕ
flaky zero = (err not_found, 1)
flaky (suc n) = (ok n, suc n)

-- The second call fails in another way than the first.
abbrev broken : Action ℕ ℕ
broken zero = (err not_found, 1)
broken (suc n) = (err (message "call" []), suc (suc n))

abbrev twice : RetryConfig
twice = record { max_retries = pos 2; retryable = none }

abbrev once : RetryConfig
once = record { max_retries = pos 1; retryable = none }

abbrev pub calm : Waits
calm = record { after = λ _. none; during = λ _. none }

retry_succeeds_example : retry_operation twice calm flaky 0 ≡ flaky 1
retry_succeeds_example =
    retry_succeeds twice calm flaky 1 2 0 1 refl
      (record { after_live = λ _. refl; during_live = λ _. refl })
      (again not_found refl refl not_once) (omega arith) refl

retry_exhausted_example :
    retry_operation once calm broken 0 ≡ (err (retry_error 2 (message "call" [])), 2)
retry_exhausted_example =
    retry_exhausted once calm broken 0 0 1 (message "call" []) refl
      (record { after_live = λ _. refl; during_live = λ _. refl })
      (again not_found refl refl not_once) refl refl

abbrev hashing : List HashType → Features
hashing types = record {
  copy = true;
  move = true;
  mkdir = true;
  rmdir = true;
  stat = true;
  hashes = types;
  can_stream = true;
  server_side_encryption = false;
  versioning = false;
  range_read = true;
  list_prefix = true;
  set_mod_time = false;
  custom_metadata = false;
}

abbrev left_features : Features
left_features = hashing (hash_md5 ∷ hash_sha1 ∷ [])

abbrev right_features : Features
right_features = hashing (hash_sha256 ∷ hash_md5 ∷ [])
