-- ===== src/File/Backend.antt =====
-- backend/file/backend.go. A file that is left open is in the world, as a handle.
use omnistorage.Base.{
  ℕ, suc, Bytes, bytes_eq, Bool, true, false, List, [], ◌∷◌, codes, Option, none, some, Error,
  not_found, permission_denied, backend_closed, wrapped, Context, Result, ok, err, panic,
  if◌then◌else◌, ◌==◌, nat_eq,
}
use omnistorage.Base.Int.{ℤ, pos, ltb_ℤ}
use omnistorage.Base.Action.{Action, ◌>>=◌, ◌>>◌, pure, lift, fail_when, check_ctx}
use omnistorage.Base.Dict
use omnistorage.Base.Dict.{Dict}
use omnistorage.Options.{ReaderConfig}
use omnistorage.File.System.{Visit, System}
use omnistorage.File.Place.{validate_path, full_path, dir, rel}

pub record Config : Type 0 where
  pub root : Bytes
  pub create_dirs : Bool
  pub dir_permissions : ℕ
  pub file_permissions : ℕ

-- `DefaultConfig`: the permissions are 0755 and 0644.
abbrev pub default_config : Config
default_config = record {
  root = codes ".";
  create_dirs = true;
  dir_permissions = 493;
  file_permissions = 420;
}

pub record Backend : Type 0 where
  pub config : Config
  pub closed : Bool

unfoldable pub new : Config → Backend
new c = record {
  config = record {
    root = if c.root == [] then codes "." else c.root;
    create_dirs = c.create_dirs;
    dir_permissions = if c.dir_permissions == 0 then 493 else c.dir_permissions;
    file_permissions = if c.file_permissions == 0 then 420 else c.file_permissions;
  };
  closed = false;
}

unfoldable pub new_from_config : Dict Bytes Bytes → Backend
unfolding new
new_from_config config_map =
    let root : Bytes = elim (Dict.lookup (codes "root") config_map) [
      | none ↦ codes "."
      | some r ↦ if r == [] then codes "." else r
    ] in
    let create_dirs : Bool = elim (Dict.lookup (codes "create_dirs") config_map) [
      | none ↦ true
      | some v ↦ if v == codes "false" then false else true
    ] in
    new (record default_config { root = root; create_dirs = create_dirs })

unfoldable pub close : Backend → Backend
close b = record b { closed = true }

-- An open file, and the bytes at most that it gives, if they are limited.
pub record FileReader (H : Type 0) : Type 0 where
  pub file : H
  pub limit : Option ℤ

module _ {W : Type 0} (S : System W) (b : Backend) where
  -- `checkClosed`, `ctx.Err` and `validatePath`, in this order.
  abbrev pub guards : Context → Bytes → Action W (Unit {0})
  guards ctx p = fail_when b.closed backend_closed >> check_ctx ctx >> lift (validate_path p)

  abbrev pub full : Bytes → Bytes
  full p = full_path b.config.root p

  -- An error of the operating system, as the callers see it.
  unfoldable pub os_error : Bytes → Error → Error
  os_error what e =
      if S.is_not_exist e
      then not_found
      else if S.is_permission e
      then permission_denied
      else wrapped e what

  abbrev pub or_os_error : {A : Type 0} → Bytes → Action W A → Action W A
  or_os_error what m w =
      let (r, w') = m w in
      elim r [ ok a ↦ (ok a, w') | err e ↦ (err (os_error what e), w') | panic ↦ (panic, w') ]

  abbrev pub or_wrapped : {A : Type 0} → Bytes → Action W A → Action W A
  or_wrapped what m w =
      let (r, w') = m w in
      elim r [ ok a ↦ (ok a, w') | err e ↦ (err (wrapped e what), w') | panic ↦ (panic, w') ]

  -- `if b.config.CreateDirs { os.MkdirAll(filepath.Dir(path)) }`
  abbrev pub make_parents : Bytes → Action W (Unit {0})
  make_parents path =
      if b.config.create_dirs
      then or_wrapped (codes "creating directory") (S.mkdir_all (dir path) b.config.dir_permissions)
      else pure tt

  unfoldable pub new_writer : Context → Bytes → Action W S.Handle
  new_writer ctx p =
      guards ctx p
      >> make_parents (full p)
      >> or_wrapped (codes "creating file") (S.create (full p) b.config.file_permissions)

  -- `f.Seek`, where there is an offset; the file is closed if it fails.
  unfoldable pub seek_to : S.Handle → ℤ → Action W (Unit {0})
  seek_to f offset w =
      if ltb_ℤ (pos 0) offset
      then (let (r, w') = S.seek f offset w in
          elim r [
            | ok _ ↦ (ok tt, w')
            | err e ↦ (err (wrapped e (codes "seeking to offset")), (S.close f w').1)
            | panic ↦ (panic, w')
          ])
      else (ok tt, w)

  unfoldable pub new_reader : Context → Bytes → ReaderConfig → Action W (FileReader S.Handle)
  unfolding seek_to os_error
  new_reader ctx p config = do
    guards ctx p
    f ← or_os_error (codes "opening file") (S.open_file (full p))
    seek_to f config.offset
    pure (record {
      file = f;
      limit = if ltb_ℤ (pos 0) config.limit then some config.limit else none;
    })

  unfoldable pub exists : Context → Bytes → Action W Bool
  exists ctx p = guards ctx p >> λ w.
      let (r, w') = S.stat (full p) w in
      elim r [
        | ok _ ↦ (ok true, w')
        | err e ↦ (
          if S.is_not_exist e then ok false else err (wrapped e (codes "checking existence")),
          w',
        )
        | panic ↦ (panic, w')
      ]

  unfoldable pub delete : Context → Bytes → Action W (Unit {0})
  delete ctx p = guards ctx p >> λ w.
      let (r, w') = S.remove (full p) w in
      elim r [
        | ok _ ↦ (ok tt, w')
        | err e ↦ (
          (if S.is_not_exist e
              then ok tt
              else err
                  (if S.is_permission e then permission_denied else wrapped e (codes "deleting"))),
          w',
        )
        | panic ↦ (panic, w')
      ]

  -- The callback of `List` at each visit, with what the context says there. An error ends the walk.
  unfoldable pub visit_all : (ℕ → Context) → ℕ → List Visit → Result (List Bytes)
  unfolding rel
  visit_all ctx n [] = ok []
  visit_all ctx n (v ∷ vs) =
      let rest = visit_all ctx (suc n) vs in
      elim (ctx n) [
        | some e ↦ err e
        | none ↦ elim v.failure [
          | some e ↦ if S.is_permission e then rest else err e
          | none ↦ if v.is_dir then rest else elim (rel b.config.root v.path) [
            | err e ↦ err e
            | panic ↦ panic
            | ok p ↦ elim rest [ ok ps ↦ ok (p ∷ ps) | err e ↦ err e | panic ↦ panic ]
          ]
        ]
      ]

  -- `List`, which does not validate its prefix; the context is asked first at the moment 0.
  unfoldable pub list : (ℕ → Context) → Bytes → Action W (List Bytes)
  unfolding visit_all
  list ctx prefix = fail_when b.closed backend_closed >> check_ctx (ctx 0) >> λ w.
      let (visits, w') = S.walk (if prefix == [] then b.config.root else full prefix) w in
      elim (visit_all ctx 1 visits) [
        | ok ps ↦ (ok ps, w')
        | err e ↦ (if S.is_not_exist e then ok [] else err (wrapped e (codes "listing")), w')
        | panic ↦ (panic, w')
      ]
