-- ===== src/Dropbox.antt =====
-- backend/dropbox/options.go, which is all that there is of the backend.
use omnistorage.Base.{
  ◌*◌, Bytes, bytes_eq, [], codes, message, Result, ok, err, if◌then◌else◌, ◌==◌,
}
use omnistorage.Base.Int.{ℤ, pos}
use omnistorage.Base.Setting.{Settings, Environ, text_of}

pub record Config : Type 0 where
  pub access_token : Bytes
  pub refresh_token : Bytes
  pub app_key : Bytes
  pub app_secret : Bytes
  pub root : Bytes
  pub chunk_size : ℤ
  pub concurrency : ℤ

abbrev pub default_config : Config
default_config = record {
  access_token = [];
  refresh_token = [];
  app_key = [];
  app_secret = [];
  root = [];
  chunk_size = pos (150 * 1024 * 1024);
  concurrency = pos 4;
}

-- A variable that is empty leaves its field as it is, which is empty too.
unfoldable pub config_from_env : Environ → Config
config_from_env env = record default_config {
  access_token = env (codes "OMNISTORAGE_DROPBOX_ACCESS_TOKEN");
  refresh_token = env (codes "OMNISTORAGE_DROPBOX_REFRESH_TOKEN");
  app_key = env (codes "OMNISTORAGE_DROPBOX_APP_KEY");
  app_secret = env (codes "OMNISTORAGE_DROPBOX_APP_SECRET");
  root = env (codes "OMNISTORAGE_DROPBOX_ROOT");
}

unfoldable pub config_from_map : Settings → Config
config_from_map m = record default_config {
  access_token = text_of m (codes "access_token") [];
  refresh_token = text_of m (codes "refresh_token") [];
  app_key = text_of m (codes "app_key") [];
  app_secret = text_of m (codes "app_secret") [];
  root = text_of m (codes "root") [];
}

-- `Validate`: `ErrTokenRequired`
unfoldable pub validate : Config → Result (Unit {0})
validate c =
    if c.access_token == [] then err (message "dropbox: access token is required" []) else ok tt
