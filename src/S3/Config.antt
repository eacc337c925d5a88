-- ===== src/S3/Config.antt =====
-- backend/s3/options.go, and `New` of backend/s3/backend.go, over what loads a configuration and
-- builds clients.
use omnistorage.Base.{
  ℕ, ◌*◌, Bytes, bytes_eq, Bool, false, ◌&&◌, not, List, [], ◌∷◌, ◌++◌, codes, message, wrapped,
  Result, ok, err, panic, if◌then◌else◌, ◌==◌,
}
use omnistorage.Base.Int.{ℤ, pos, int_eq}
use omnistorage.Base.Action.{Action, ◌>>◌, lift}
use omnistorage.Base.Setting.{Settings, Environ, text_of, number_of, flag_of, text_env, is_yes}

pub record Config : Type 0 where
  pub bucket : Bytes
  pub region : Bytes
  pub endpoint : Bytes
  pub prefix : Bytes
  pub access_key_id : Bytes
  pub secret_access_key : Bytes
  pub session_token : Bytes
  pub use_path_style : Bool
  pub disable_ssl : Bool
  pub part_size : ℤ
  pub concurrency : ℤ

abbrev pub five_megabytes : ℕ
five_megabytes = 5 * 1024 * 1024

abbrev pub default_config : Config
default_config = record {
  bucket = [];
  region = [];
  endpoint = [];
  prefix = [];
  access_key_id = [];
  secret_access_key = [];
  session_token = [];
  use_path_style = false;
  disable_ssl = false;
  part_size = pos five_megabytes;
  concurrency = pos 5;
}

-- The first of the variables that is not empty.
unfoldable pub config_from_env : Environ → Config
config_from_env env = record default_config {
  bucket = text_env env (codes "OMNISTORAGE_S3_BUCKET") (env (codes "AWS_S3_BUCKET"));
  region =
      text_env env (codes "OMNISTORAGE_S3_REGION")
        (text_env env (codes "AWS_REGION") (env (codes "AWS_DEFAULT_REGION")));
  endpoint = env (codes "OMNISTORAGE_S3_ENDPOINT");
  prefix = env (codes "OMNISTORAGE_S3_PREFIX");
  access_key_id = env (codes "AWS_ACCESS_KEY_ID");
  secret_access_key = env (codes "AWS_SECRET_ACCESS_KEY");
  session_token = env (codes "AWS_SESSION_TOKEN");
  use_path_style = is_yes (env (codes "OMNISTORAGE_S3_USE_PATH_STYLE"));
  disable_ssl = is_yes (env (codes "OMNISTORAGE_S3_DISABLE_SSL"));
}

unfoldable pub config_from_map : Settings → Config
config_from_map m = record {
  bucket = text_of m (codes "bucket") [];
  region = text_of m (codes "region") [];
  endpoint = text_of m (codes "endpoint") [];
  prefix = text_of m (codes "prefix") [];
  access_key_id = text_of m (codes "access_key_id") [];
  secret_access_key = text_of m (codes "secret_access_key") [];
  session_token = text_of m (codes "session_token") [];
  use_path_style = flag_of m (codes "use_path_style") false;
  disable_ssl = flag_of m (codes "disable_ssl") false;
  part_size = number_of m (codes "part_size") (pos five_megabytes);
  concurrency = number_of m (codes "concurrency") (pos 5);
}

-- `Validate`: `ErrBucketRequired`
unfoldable pub validate : Config → Result (Unit {0})
validate c = if c.bucket == [] then err (message "s3: bucket is required" []) else ok tt

-- The defaults of `New` for numbers that are zero.
unfoldable pub with_defaults : Config → Config
with_defaults c = record c {
  part_size = if c.part_size == pos 0 then pos five_megabytes else c.part_size;
  concurrency = if c.concurrency == pos 0 then pos 5 else c.concurrency;
}

-- What `New` asks of the vendor: options are values.
pub record Loader (W : Type 0) : Type 1 where
  pub LoadOption : Type 0
  pub ClientOption : Type 0
  pub Loaded : Type 0
  pub Client : Type 0
  pub Transfers : Type 0
  pub with_region : Bytes → LoadOption
  pub with_credentials : Bytes → Bytes → Bytes → LoadOption
  pub load_default : List LoadOption → Action W Loaded
  pub base_endpoint : Bytes → ClientOption
  pub path_style : ClientOption
  pub new_client : Loaded → List ClientOption → Client
  pub new_transfers : Client → ℤ → ℤ → Transfers

pub record Connected (A B : Type 0) : Type 0 where
  pub client : A
  pub transfer_client : B
  pub config : Config

module _ {W : Type 0} (L : Loader W) where
  -- `optFns`
  unfoldable pub load_options : Config → List L.LoadOption
  load_options c =
      (if c.region == [] then [] else L.with_region c.region ∷ [])
      ++ (if not (c.access_key_id == []) && not (c.secret_access_key == [])
          then L.with_credentials c.access_key_id c.secret_access_key c.session_token ∷ []
          else [])

  -- `s3OptFns`
  unfoldable pub client_options : Config → List L.ClientOption
  client_options c =
      (if c.endpoint == [] then [] else L.base_endpoint c.endpoint ∷ [])
      ++ (if c.use_path_style then L.path_style ∷ [] else [])

  unfoldable pub new : Config → Action W (Connected L.Client L.Transfers)
  unfolding validate with_defaults load_options client_options
  new given = lift (validate given) >> λ w.
      let c = with_defaults given in
      let (r, w') = L.load_default (load_options c) w in
      elim r [
        | ok loaded ↦
            let client = L.new_client loaded (client_options c) in
            let transfers = L.new_transfers client c.part_size c.concurrency in
            (ok (record { client = client; transfer_client = transfers; config = c }), w')
        | err e ↦ (err (wrapped e (codes "loading AWS config")), w')
        | panic ↦ (panic, w')
      ]

  unfoldable pub new_from_config : Settings → Action W (Connected L.Client L.Transfers)
  unfolding new config_from_map
  new_from_config m = new (config_from_map m)
