-- ===== src/Sftp/Backend.antt =====
-- backend/sftp/backend.go, from `NewWriter` on: a backend that is connected.
use omnistorage.Base.{
  ℕ, zero, suc, Bytes, bytes_eq, nat_eq, Bool, true, false, not, ◌&&◌, List, [], ◌∷◌, ◌++◌, codes,
  Option, none, some, Error, not_found, permission_denied, backend_closed, message, wrapped,
  Context, ok, err, panic, if◌then◌else◌, ◌==◌,
}
use omnistorage.Base.Int.{ℤ, pos, ltb_ℤ}
use omnistorage.Base.Action.{Action, ◌>>=◌, ◌>>◌, pure, fail_when, check_ctx}
use omnistorage.Options.{ReaderConfig}
use omnistorage.Paths.Text.{slash, split, has_prefix, trim_prefix}
use omnistorage.Paths.Clean.{dot, path_join}
use omnistorage.Features.{Features}
use omnistorage.File.Extended.{FileObject}
use omnistorage.File.Place.{dir}
use omnistorage.Sftp.Client.{Entry, Client}

-- `root` is that of the configuration.
pub record Backend : Type 0 where
  pub root : Bytes
  pub closed : Bool

-- `fullPath`: nothing is validated.
unfoldable pub full_path : Backend → Bytes → Bytes
full_path b p = if b.root == [] then p else path_join b.root p

unfoldable pub last_field : List Bytes → Option Bytes
last_field [] = none
last_field (w ∷ ws) = elim (last_field ws) [
  | some v ↦ some v
  | none ↦ if w == [] then none else some w
]

-- `path.Base`
unfoldable pub base : Bytes → Bytes
unfolding last_field
base p =
    if p == [] then dot else elim (last_field (split slash p)) [ none ↦ slash ∷ [] | some w ↦ w ]

-- `Features`
abbrev pub features : Features
features = record {
  copy = true;
  move = true;
  mkdir = true;
  rmdir = true;
  stat = true;
  hashes = [];
  can_stream = false;
  server_side_encryption = false;
  versioning = false;
  range_read = true;
  list_prefix = true;
  set_mod_time = false;
  custom_metadata = false;
}

-- A file that is open, and the bytes at most that it gives, if they are limited.
pub record RemoteReader (H : Type 0) : Type 0 where
  pub file : H
  pub limit : Option ℤ

module _ {W : Type 0} (C : Client W) where
  -- `translateError`
  unfoldable pub translate_error : Bytes → Error → Error
  translate_error p e =
      let other : Error = wrapped e p in
      if C.is_not_exist e
      then not_found
      else if C.is_permission e
      then permission_denied
      else elim (C.path_error e) [
        | none ↦ other
        | some x ↦
            if C.is_not_exist x
            then not_found
            else if C.is_permission x
            then permission_denied
            else other
      ]

  abbrev pub translated : {A : Type 0} → Bytes → Action W A → Action W A
  translated p m w =
      let (r, w') = m w in
      elim r [ ok a ↦ (ok a, w') | err e ↦ (err (translate_error p e), w') | panic ↦ (panic, w') ]

  abbrev pub or_wrapped : {A : Type 0} → Bytes → Action W A → Action W A
  or_wrapped what m w =
      let (r, w') = m w in
      elim r [ ok a ↦ (ok a, w') | err e ↦ (err (wrapped e what), w') | panic ↦ (panic, w') ]

  -- An answer that says that nothing is there is no error.
  abbrev or_absent : {A : Type 0} → Bytes → A → Action W A → Action W A
  or_absent p a m w =
      let (r, w') = m w in
      elim r [
        | ok x ↦ (ok x, w')
        | err e ↦ (if C.is_not_exist e then ok a else err (translate_error p e), w')
        | panic ↦ (panic, w')
      ]

  module _ (b : Backend) where
    -- `checkClosed` and `ctx.Err`
    abbrev pub guards : Context → Action W (Unit {0})
    guards ctx = fail_when b.closed backend_closed >> check_ctx ctx

    abbrev pub full : Bytes → Bytes
    full p = full_path b p

    abbrev pub make_parents : Bytes → Action W (Unit {0})
    make_parents path = or_wrapped (codes "creating directory") (C.mkdir_all (dir path))

    unfoldable pub new_writer : Context → Bytes → Action W C.Handle
    unfolding translate_error
    new_writer ctx p = guards ctx >> make_parents (full p) >> translated p (C.create (full p))

    -- `f.Seek`, where there is an offset; the file is closed if it fails.
    unfoldable pub seek_to : C.Handle → ℤ → Action W (Unit {0})
    seek_to f offset w =
        if ltb_ℤ (pos 0) offset
        then (let (r, w') = C.seek f offset w in
            elim r [
              | ok _ ↦ (ok tt, w')
              | err e ↦ (err (wrapped e (codes "seeking to offset")), (C.close_file f w').1)
              | panic ↦ (panic, w')
            ])
        else (ok tt, w)

    unfoldable pub new_reader : Context → Bytes → ReaderConfig → Action W (RemoteReader C.Handle)
    unfolding seek_to translate_error
    new_reader ctx p config = do
      guards ctx
      f ← translated p (C.open_file (full p))
      seek_to f config.offset
      pure (record {
        file = f;
        limit = if ltb_ℤ (pos 0) config.limit then some config.limit else none;
      })

    unfoldable pub exists : Context → Bytes → Action W Bool
    unfolding translate_error
    exists ctx p = guards ctx >> or_absent p false (C.stat (full p) >>= λ _. pure true)

    unfoldable pub delete : Context → Bytes → Action W (Unit {0})
    unfolding translate_error
    delete ctx p = guards ctx >> or_absent p tt (C.remove (full p))

    -- The loop of `walkDir` over the entries of a directory; `walk` goes into those below.
    unfoldable pub entries_loop :
        (Bytes → Action W (List Bytes)) → Bytes → Bytes → List Entry → Action W (List Bytes)
    entries_loop walk d name_prefix [] = pure []
    entries_loop walk d name_prefix (e ∷ es) =
        let path = path_join d e.name in
        let here : Action W (List Bytes) =
          if e.is_dir
          then walk path
          else pure (trim_prefix (trim_prefix path b.root) (codes "/") ∷ []) in
        let rest = entries_loop walk d name_prefix es in
        if not (name_prefix == []) && not (has_prefix e.name name_prefix)
        then rest
        else (here >>= λ xs. rest >>= λ ys. pure (xs ++ ys))

    -- `walkDir`, with what the context says at each directory. The fuel bounds the depth, which the
    -- code does not.
    unfoldable pub walk_dir : (Bytes → Context) → ℕ → Bytes → Bytes → Action W (List Bytes)
    unfolding entries_loop
    walk_dir ctx zero d name_prefix = λ w. (panic, w)
    walk_dir ctx (suc fuel) d name_prefix = check_ctx (ctx d) >> λ w.
        let (r, w') = C.read_dir d w in
        elim r [
          | ok es ↦ entries_loop (λ path. walk_dir ctx fuel path []) d name_prefix es w'
          | err e ↦ (
            (if C.is_not_exist e then ok [] else err (wrapped e (codes "listing directory"))),
            w',
          )
          | panic ↦ (panic, w')
        ]

    -- `List`: what is no directory is taken for a directory and the beginning of names.
    unfoldable pub list : (Bytes → Context) → Context → ℕ → Bytes → Action W (List Bytes)
    unfolding walk_dir base
    list ctx first fuel prefix = guards first >> λ w.
        let path = full prefix in
        let (r, w') = C.stat path w in
        let is_dir : Bool = elim r [ ok info ↦ info.is_dir | _ ↦ false ] in
        if is_dir then walk_dir ctx fuel path [] w' else walk_dir ctx fuel (dir path) (base path) w'

    unfoldable pub stat : Context → Bytes → Action W FileObject
    unfolding translate_error
    stat ctx p = do
      guards ctx
      info ← translated p (C.stat (full p))
      pure (record {
        path = p;
        size = info.size;
        mod_time = info.mod_time;
        is_dir = info.is_dir;
        content_type = [];
      })

    unfoldable pub mkdir : Context → Bytes → Action W (Unit {0})
    mkdir ctx p = guards ctx >> or_wrapped (codes "creating directory") (C.mkdir_all (full p))

    abbrev is_occupied : List Entry → Bool
    is_occupied [] = false
    is_occupied (_ ∷ _) = true

    unfoldable pub rmdir : Context → Bytes → Action W (Unit {0})
    unfolding translate_error
    rmdir ctx p = do
      guards ctx
      entries ← translated p (C.read_dir (full p))
      fail_when (is_occupied entries) (message "sftp: directory not empty" p)
      translated p (C.remove_directory (full p))

    -- Both files are closed, and the first error goes to the caller: that of the copy, of the
    -- destination, and of the source.
    unfoldable pub copy_and_close : C.Handle → C.Handle → Action W (Unit {0})
    copy_and_close from to w =
        let (copied, w1) = C.copy_data to from w in
        let (src_closed, w2) = C.close_file from w1 in
        let (dst_closed, w3) = C.close_file to w2 in
        elim copied [
          | panic ↦ (panic, w1)
          | err e ↦ (err (wrapped e (codes "copying file")), w3)
          | ok _ ↦ elim dst_closed [
            | panic ↦ (panic, w3)
            | err e ↦ (err (wrapped e (codes "closing destination file")), w3)
            | ok _ ↦ elim src_closed [
              | panic ↦ (panic, w3)
              | err e ↦ (err (wrapped e (codes "closing source file")), w3)
              | ok _ ↦ (ok tt, w3)
            ]
          ]
        ]

    -- The source is closed if the destination cannot be created.
    unfoldable pub copy_from : C.Handle → Bytes → Action W (Unit {0})
    unfolding copy_and_close translate_error
    copy_from from dst w =
        let (r, w') = C.create (full dst) w in
        elim r [
          | ok to ↦ copy_and_close from to w'
          | err e ↦ (err (translate_error dst e), (C.close_file from w').1)
          | panic ↦ (panic, w')
        ]

    unfoldable pub copy : Context → Bytes → Bytes → Action W (Unit {0})
    unfolding copy_from translate_error
    copy ctx src dst = do
      guards ctx
      make_parents (full dst)
      from ← translated src (C.open_file (full src))
      copy_from from dst

    -- Where the file cannot be renamed it is copied and deleted.
    unfoldable pub rename_or_copy : Context → Bytes → Bytes → Action W (Unit {0})
    unfolding copy delete
    rename_or_copy ctx src dst w =
        let (r, w') = C.rename (full src) (full dst) w in
        elim r [
          | ok _ ↦ (ok tt, w')
          | err _ ↦ (copy ctx src dst >> delete ctx src) w'
          | panic ↦ (panic, w')
        ]

    -- `Move`
    unfoldable pub move : Context → Bytes → Bytes → Action W (Unit {0})
    unfolding rename_or_copy
    move ctx src dst = guards ctx >> make_parents (full dst) >> rename_or_copy ctx src dst

  -- `Close`, of a backend that is not closed: the error is that of the clients.
  unfoldable pub close : Action (W × Backend) (Unit {0})
  close (w, b) =
      if b.closed
      then (ok tt, (w, b))
      else let (r, w') = C.close_clients w in (r, (w', record b { closed = true }))
