-- ===== src/Tests/Sftp.antt =====
-- A server that keeps a list of files, and the theorems on the SFTP backend over it.
use omnistorage.Base.{
  ℕ, Bytes, bytes_eq, nat_eq, false, ◌≡◌, refl, [], ◌∷◌, codes, none, some, not_found,
  permission_denied, message, Bool-cases, ok, err, Option-cases, ◌-◌, suc, arith, ◌==◌,
  if◌then◌else◌,
}
use omnistorage.Base.Int.{pos}
use omnistorage.Base.Dict
use omnistorage.Base.Dict.{Dict}
use omnistorage.Options.{ReaderConfig}
use omnistorage.Paths.Text.{split, join, has_prefix, trim_prefix}
use omnistorage.Paths.Clean.{clean, segments, resolve, push, pop, is_rooted, path_join}
use omnistorage.File.Place.{dir, parent_part}
use omnistorage.Sftp.Client.{Client}
use omnistorage.Sftp.Backend.{
  Backend, full_path, last_field, base, copy, copy_from, copy_and_close, translate_error, walk_dir,
  entries_loop, list, delete, move, rename_or_copy, new_reader,
}
use omnistorage.Base.Counting.{one_if_ok}
use omnistorage.Sftp.Handles.{CountsHandles, none_leaked}

-- The files, and how many are open.
record Server : Type 0 where
  files : Dict Bytes Bytes
  opened : ℕ

abbrev server : Client Server
server = record {
  Handle = Bytes;
  stat = λ p s. (
    elim (Dict.lookup p s.files) [
      | none ↦ err not_found
      | some bytes ↦ ok (record { size = pos 0; mod_time = 0; is_dir = false })
    ],
    s,
  );
  open_file = λ p s. elim (Dict.lookup p s.files) [
    | none ↦ (err not_found, s)
    | some bytes ↦ (ok p, record s { opened = suc s.opened })
  ];
  create = λ p s.
      if p == codes "/data/denied"
      then (err permission_denied, s)
      else (ok p, record s { files = Dict.insert p [] s.files; opened = suc s.opened });
  seek = λ f offset s. (ok tt, s);
  copy_data = λ to from s. (
    ok tt,
    elim (Dict.lookup from s.files) [
      | none ↦ s
      | some bytes ↦ record s { files = Dict.insert to bytes s.files }
    ],
  );
  close_file = λ f s. (ok tt, record s { opened = s.opened - 1 });
  mkdir_all = λ p s. (ok tt, s);
  remove = λ p s. (ok tt, record s { files = Dict.erase p s.files });
  remove_directory = λ p s. (err not_found, s);
  -- No file can be renamed.
  rename = λ p q s. (err (message "rename" p), s);
  read_dir = λ d s. (ok (record { name = codes "a"; is_dir = false } ∷ []), s);
  close_clients = λ s. (ok tt, s);
  is_not_exist = λ e. false;
  is_permission = λ e. false;
  path_error = λ e. none;
}

server-CountsHandles : CountsHandles server
unfolding one_if_ok
server-CountsHandles = record {
  opened = λ s. s.opened;
  by_open = λ p s. ground (arith, Option-cases (Dict.lookup p s.files));
  by_create = λ p s. ground (arith, Bool-cases (p == codes "/data/denied"));
  by_close = λ f s. refl;
  by_seek = λ f i s. refl;
  by_copy = λ to from s. ground (arith, Option-cases (Dict.lookup from s.files));
  by_mkdir = λ p s. refl;
  by_remove = λ p s. refl;
  by_rename = λ p q s. refl;
  create_returns = λ p s e. ground (arith, Bool-cases (p == codes "/data/denied"), e);
  seek_returns = λ f i s e. cc;
  copy_returns = λ to from s e. cc;
}

abbrev backend : Backend
backend = record { root = codes "/data"; closed = false }

abbrev whole : ReaderConfig
whole = record { offset = pos 0; limit = pos 0; buffer_size = pos 0 }

abbrev one_file : Server
one_file = record { files = (codes "/data/a", codes "text") ∷ []; opened = 0 }

-- What the runs below compute through.
placed_at : Bytes → Bytes
unfolding full_path path_join clean segments resolve push pop is_rooted split join bytes_eq nat_eq
    has_prefix trim_prefix dir parent_part base last_field Dict.lookup Dict.insert Dict.erase copy
    copy_from copy_and_close translate_error move rename_or_copy delete list walk_dir entries_loop
placed_at p = full_path backend p

unchecked : placed_at (codes "../etc") ≡ codes "/etc"
unfolding placed_at
unchecked = refl

copied :
    (copy server backend none (codes "a") (codes "b") one_file).1.files
    ≡ (codes "/data/a", codes "text") ∷ (codes "/data/b", codes "text") ∷ []
unfolding placed_at
copied = refl

denied : (copy server backend none (codes "a") (codes "denied") one_file).1.opened ≡ 0
unfolding placed_at
denied = refl

emptied :
    (copy server backend none (codes "a") (codes "./a") one_file).1.files
    ≡ (codes "/data/a", []) ∷ []
unfolding placed_at
emptied = refl

lost :
    move server backend none (codes "a") (codes "./a") one_file
    ≡ (ok tt, record { files = []; opened = 0 })
unfolding placed_at
lost = refl

listed : (list server backend (λ d. none) none 1 (codes "a") one_file).0 ≡ ok (codes "a" ∷ [])
unfolding placed_at
listed = refl

none_leaked_example :
    ((copy server backend none (codes "a") (codes "denied") one_file).1.opened ≡ 0)
    × ((move server backend none (codes "a") (codes "denied") one_file).1.opened ≡ 0)
    × ((new_reader server backend none (codes "a") whole one_file).1.opened
        ≡ one_if_ok (new_reader server backend none (codes "a") whole one_file).0 0)
unfolding server-CountsHandles
none_leaked_example =
    none_leaked server server-CountsHandles backend none (codes "a") (codes "denied") whole one_file
