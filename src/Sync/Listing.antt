-- ===== src/Sync/Listing.antt =====
-- sync/sync.go: `listFiles`, and how one file is copied.
use omnistorage.Base.{
  ℕ, zero, suc, Bytes, bytes_eq, nat_eq, Bool, true, false, not, ◌&&◌, List, [], ◌∷◌, Option, none,
  some, ok, err, panic, Context, if◌then◌else◌, ◌==◌, length, drop, ltb,
}
use omnistorage.Base.Int.{pos, negsuc}
use omnistorage.Base.Action.{Action, ◌>>=◌, ◌>>◌, pure}
use omnistorage.Paths.Text.{slash}
use omnistorage.Features.{hash_md5}
use omnistorage.Options.{WriterOption, with_content_type, with_metadata}
use omnistorage.Backends.{ObjectInfo, Backend}
use omnistorage.Transfer.{copy_and_close}
use omnistorage.Retry.{Waits, retry_operation}
use omnistorage.Sync.Filter.{match}
use omnistorage.Sync.Options.{MetadataOptions, Options, FileInfo}

-- What is around a run: `filepath.Match`, the times at which the filter is asked, the waits of the
-- retries, and the caller's context at each moment where a run asks for it.
pub record Environment : Type 0 where
  pub glob : Bytes → Bytes → Bool
  pub times_equal : ℕ → ℕ → Bool
  pub clock : ℕ → ℕ
  pub waits : Waits
  pub context : ℕ → Context

abbrev pub drop_slash : Bytes → Bytes
drop_slash [] = []
drop_slash (c ∷ s) = if c == slash then s else c ∷ s

-- "Make path relative to basePath"
unfoldable pub relative : Bytes → Bytes → Bytes
relative base p =
    if not (base == []) && ltb (length base) (length p)
    then drop_slash (drop (length base) p)
    else p

abbrev bare : Bytes → FileInfo
bare p = record { path = p; size = pos 0; mod_time = 0; hash = []; is_dir = false }

abbrev file_of : Options → Bytes → ObjectInfo → FileInfo
file_of opts p info = record {
  path = p;
  size = info.size;
  mod_time = info.mod_time;
  hash = if opts.checksum then info.hash hash_md5 else [];
  is_dir = info.is_dir;
}

-- Whether the filter lets the file in, at the moment `n`.
unfoldable pub is_accepted : Environment → Options → ℕ → FileInfo → Bool
is_accepted env opts n fi = elim opts.filter [
  | none ↦ true
  | some rules ↦
      if fi.is_dir
      then true
      else match env.glob (env.clock n) rules
          (record { path = fi.path; size = fi.size; mod_time = fi.mod_time; is_dir = fi.is_dir })
]

module _ {W : Type 0} (env : Environment) (opts : Options) where
  -- The file of a path, which is bare where `Stat` fails.
  unfoldable pub describe : Backend W → Bytes → Bytes → Action W FileInfo
  describe B base p s = elim B.extended [
    | none ↦ (ok (bare (relative base p)), s)
    | some x ↦
        let (r, s') = x.stat p s in
        elim r [
          | ok info ↦ (ok (file_of opts (relative base p) info), s')
          | err e ↦ (ok (bare (relative base p)), s')
          | panic ↦ (panic, s')
        ]
  ]

  unfoldable pub describe_all : Backend W → Bytes → List Bytes → ℕ → Action W (List FileInfo)
  unfolding describe is_accepted
  describe_all B base [] n = pure []
  describe_all B base (p ∷ ps) n = do
    fi ← describe B base p
    rest ← describe_all B base ps (suc n)
    pure (if is_accepted env opts n fi then fi ∷ rest else rest)

  unfoldable pub list_files : Backend W → Bytes → Action W (List FileInfo)
  unfolding describe_all
  list_files B base = do paths ← B.list base; describe_all B base paths 0

-- The options that the metadata of a source file gives.
unfoldable pub options_of : Option MetadataOptions → ObjectInfo → List WriterOption
options_of settings info =
    let types : Bool = elim settings [ none ↦ true | some m ↦ m.content_type ] in
    let custom : Bool = elim settings [ none ↦ false | some m ↦ m.custom_metadata ] in
    let kept : List WriterOption = elim info.metadata [
      | [] ↦ []
      | e ∷ d ↦ if custom then with_metadata (e ∷ d) ∷ [] else []
    ] in
    if types && not (info.content_type == [])
    then with_content_type info.content_type ∷ kept
    else kept

module _ {W : Type 0} where
  unfoldable pub build_writer_options :
      Backend W → Bytes → Option MetadataOptions → Action W (List WriterOption)
  unfolding options_of
  build_writer_options S src settings s = elim S.extended [
    | none ↦ (ok [], s)
    | some x ↦
        let (r, s') = x.stat src s in
        elim r [
          | ok info ↦ (ok (options_of settings info), s')
          | err e ↦ (ok [], s')
          | panic ↦ (panic, s')
        ]
  ]

  -- `same` is `src == dst`, on the backends.
  unfoldable pub copy_file_single :
      Bool → Backend W → Bytes → Backend W → Bytes → Option MetadataOptions → Action W (Unit {0})
  copy_file_single same S src D dst settings =
      let client = S.new_reader src >>= λ stream. build_writer_options S src settings >>= λ opts.
      D.new_writer dst opts >>= λ w. copy_and_close D w stream in
      elim S.extended [
        | none ↦ client
        | some x ↦ if same then (if x.features.copy then x.copy src dst else client) else client
      ]

  unfoldable pub copy_file_with_context :
      Environment → Options → Bool → Backend W → Bytes → Backend W → Bytes → Action W (Unit {0})
  copy_file_with_context env opts same S src D dst =
      let once = copy_file_single same S src D dst opts.preserve_metadata in
      elim opts.retry [
        | none ↦ once
        | some config ↦ elim config.max_retries [
          | negsuc n ↦ once
          | pos n ↦ elim n [ zero ↦ once | suc m ↦ retry_operation config env.waits once ]
        ]
      ]

  -- `MoveFile`
  unfoldable pub move_file : Bool → Backend W → Bytes → Backend W → Bytes → Action W (Unit {0})
  move_file same S src D dst =
      let client = copy_file_single same S src D dst none >> S.delete src in
      elim S.extended [
        | none ↦ client
        | some x ↦ if same then (if x.features.move then x.move src dst else client) else client
      ]
