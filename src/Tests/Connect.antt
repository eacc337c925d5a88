-- ===== src/Tests/Connect.antt =====
-- A server that takes a password and gives no SFTP session, and the theorem on `New` over it.
use omnistorage.Base.{
  ℕ, suc, ◌-◌, Bytes, bytes_eq, ◌≡◌, refl, [], codes, ok, err, message, not_found,
}
use omnistorage.Sftp.Config.{
  Config, default_config, Dialer, new, validate, with_defaults, auth_methods, open_session,
}
use omnistorage.Base.Counting.{one_if_ok}
use omnistorage.Sftp.Connect.{CountsConnections, new_leaks_nothing}

-- The world is how many connections are open.
abbrev dialer : Dialer ℕ
dialer = record {
  Auth = Bytes;
  Signer = Bytes;
  HostKeys = Bytes;
  SshClient = Bytes;
  SftpClient = Bytes;
  read_file = λ p n. (err not_found, n);
  parse_key = λ key. ok key;
  parse_key_with = λ key passphrase. ok key;
  password_auth = λ p. p;
  key_auth = λ key. key;
  home_dir = λ n. (ok (codes "/home/a"), n);
  known_hosts = λ p n. (ok p, n);
  dial = λ host port user timeout auth keys n. (ok host, suc n);
  new_client = λ c n. (err (message "no subsystem" []), n);
  close_ssh = λ c n. (ok tt, n - 1);
}

dialled : (host : Bytes) (n : ℕ) → suc n ≡ one_if_ok (ok host) n
unfolding one_if_ok
dialled host n = refl

abbrev dialer-CountsConnections : CountsConnections dialer
dialer-CountsConnections = record {
  opened = λ n. n;
  by_read = λ p n. refl;
  by_home = λ n. refl;
  by_hosts = λ p n. refl;
  by_dial = λ host port user timeout auth keys n. dialled host n;
  by_session = λ c n. refl;
  by_close = λ c n. refl;
  session_returns = λ c n e. cc;
}

abbrev with_password : Config
with_password = record default_config { host = codes "h"; user = codes "u"; password = codes "p" }

-- There is no session, and the connection is closed.
no_session : (new dialer with_password 3).1 ≡ 3
unfolding new validate with_defaults auth_methods open_session bytes_eq
no_session = refl

new_leaks_nothing_example :
    (new dialer with_password 3).1 ≡ one_if_ok (new dialer with_password 3).0 3
new_leaks_nothing_example = new_leaks_nothing dialer dialer-CountsConnections with_password 3
