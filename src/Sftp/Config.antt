-- ===== src/Sftp/Config.antt =====
-- backend/sftp/options.go, and `New` and `keyFileAuth` of backend/sftp/backend.go, over what opens
-- connections.
use omnistorage.Base.{
  Bytes, bytes_eq, Bool, true, false, List, [], ◌∷◌, ◌++◌, codes, message, wrapped, Result, ok, err,
  panic, if◌then◌else◌, ◌==◌,
}
use omnistorage.Base.Int.{ℤ, pos, int_eq}
use omnistorage.Base.Action.{Action, ◌>>=◌, ◌>>◌, pure, lift, fail_when}
use omnistorage.Base.Setting.{Settings, Environ, text_of, number_of, text_env, number_env}
use omnistorage.Paths.Clean.{path_join}

pub record Config : Type 0 where
  pub host : Bytes
  pub port : ℤ
  pub user : Bytes
  pub password : Bytes
  pub key_file : Bytes
  pub key_passphrase : Bytes
  pub root : Bytes
  pub known_hosts_file : Bytes
  pub timeout : ℤ
  pub concurrency : ℤ

abbrev pub default_config : Config
default_config = record {
  host = [];
  port = pos 22;
  user = [];
  password = [];
  key_file = [];
  key_passphrase = [];
  root = [];
  known_hosts_file = [];
  timeout = pos 30;
  concurrency = pos 5;
}

unfoldable pub config_from_env : Environ → Config
config_from_env env = record default_config {
  host = text_env env (codes "OMNISTORAGE_SFTP_HOST") [];
  port = number_env env (codes "OMNISTORAGE_SFTP_PORT") (pos 22);
  user = text_env env (codes "OMNISTORAGE_SFTP_USER") [];
  password = text_env env (codes "OMNISTORAGE_SFTP_PASSWORD") [];
  key_file = text_env env (codes "OMNISTORAGE_SFTP_KEY_FILE") [];
  key_passphrase = text_env env (codes "OMNISTORAGE_SFTP_KEY_PASSPHRASE") [];
  root = text_env env (codes "OMNISTORAGE_SFTP_ROOT") [];
  known_hosts_file = text_env env (codes "OMNISTORAGE_SFTP_KNOWN_HOSTS") [];
  timeout = number_env env (codes "OMNISTORAGE_SFTP_TIMEOUT") (pos 30);
}

-- `password` goes before `pass`.
unfoldable pub config_from_map : Settings → Config
config_from_map m = record default_config {
  host = text_of m (codes "host") [];
  port = number_of m (codes "port") (pos 22);
  user = text_of m (codes "user") [];
  password = text_of m (codes "password") (text_of m (codes "pass") []);
  key_file = text_of m (codes "key_file") [];
  key_passphrase = text_of m (codes "key_passphrase") [];
  root = text_of m (codes "root") [];
  known_hosts_file = text_of m (codes "known_hosts") [];
  timeout = number_of m (codes "timeout") (pos 30);
  concurrency = number_of m (codes "concurrency") (pos 5);
}

-- `Validate`: `ErrHostRequired` and `ErrUserRequired`.
unfoldable pub validate : Config → Result (Unit {0})
validate c =
    if c.host == []
    then err (message "sftp: host is required" [])
    else if c.user == []
    then err (message "sftp: user is required" [])
    else ok tt

-- What `New` asks of the packages os, ssh, knownhosts and sftp.
pub record Dialer (W : Type 0) : Type 1 where
  pub Auth : Type 0
  pub Signer : Type 0
  pub HostKeys : Type 0
  pub SshClient : Type 0
  pub SftpClient : Type 0
  pub read_file : Bytes → Action W Bytes
  pub parse_key : Bytes → Result Signer
  pub parse_key_with : Bytes → Bytes → Result Signer
  pub password_auth : Bytes → Auth
  pub key_auth : Signer → Auth
  pub home_dir : Action W Bytes
  pub known_hosts : Bytes → Action W HostKeys
  -- The address, the user, the seconds of the timeout, and how both sides show who they are.
  pub dial : Bytes → ℤ → Bytes → ℤ → List Auth → HostKeys → Action W SshClient
  pub new_client : SshClient → Action W SftpClient
  pub close_ssh : SshClient → Action W (Unit {0})

-- A backend that is connected.
pub record Connected (A B : Type 0) : Type 0 where
  pub ssh_client : A
  pub sftp_client : B
  pub config : Config

-- The defaults of `New` for numbers that are zero.
unfoldable pub with_defaults : Config → Config
with_defaults c = record c {
  port = if c.port == pos 0 then pos 22 else c.port;
  timeout = if c.timeout == pos 0 then pos 30 else c.timeout;
}

module _ {W : Type 0} (D : Dialer W) where
  abbrev pub or_wrapped : {A : Type 0} → Bytes → Action W A → Action W A
  or_wrapped what m w =
      let (r, w') = m w in
      elim r [ ok a ↦ (ok a, w') | err e ↦ (err (wrapped e what), w') | panic ↦ (panic, w') ]

  unfoldable pub key_file_auth : Bytes → Bytes → Action W D.Auth
  key_file_auth key_file passphrase = do
    key_data ← or_wrapped (codes "reading key file") (D.read_file key_file)
    signer ← or_wrapped (codes "parsing private key") (
        lift
          (if passphrase == [] then D.parse_key key_data else D.parse_key_with key_data passphrase))
    pure (D.key_auth signer)

  -- The password, if there is one, and then the key.
  unfoldable pub auth_methods : Config → Action W (List D.Auth)
  unfolding key_file_auth
  auth_methods c =
      let passwords : List D.Auth =
        if c.password == [] then [] else D.password_auth c.password ∷ [] in
      if c.key_file == []
      then pure passwords
      else (or_wrapped (codes "loading key file") (key_file_auth c.key_file c.key_passphrase)
          >>= λ a. pure (passwords ++ (a ∷ [])))

  abbrev pub no_methods : List D.Auth → Bool
  no_methods [] = true
  no_methods (_ ∷ _) = false

  -- The SSH connection is closed if there is no SFTP session over it.
  unfoldable pub open_session : Config → D.SshClient → Action W (Connected D.SshClient D.SftpClient)
  open_session c ssh w =
      let (r, w') = D.new_client ssh w in
      elim r [
        | ok client ↦ (ok (record { ssh_client = ssh; sftp_client = client; config = c }), w')
        | err e ↦ (err (wrapped e (codes "SFTP session failed")), (D.close_ssh ssh w').1)
        | panic ↦ (panic, w')
      ]

  unfoldable pub new : Config → Action W (Connected D.SshClient D.SftpClient)
  unfolding validate with_defaults auth_methods open_session
  new given = do
    lift (validate given)
    let c = with_defaults given
    methods ← auth_methods c
    fail_when (no_methods methods) (message "sftp: no authentication method provided" [])
    home ← or_wrapped (codes "could not determine user home directory") D.home_dir
    let file = path_join (path_join home (codes ".ssh")) (codes "known_hosts")
    keys ← or_wrapped (codes "could not load known_hosts file") (D.known_hosts file)
    ssh ←
        or_wrapped (codes "SSH connection failed")
          (D.dial c.host c.port c.user c.timeout methods keys)
    open_session c ssh

  unfoldable pub new_from_config : Settings → Action W (Connected D.SshClient D.SftpClient)
  unfolding new config_from_map
  new_from_config m = new (config_from_map m)
