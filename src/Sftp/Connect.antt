-- ===== src/Sftp/Connect.antt =====
-- Which connections `New` of backend/sftp/backend.go leaves open.
use omnistorage.Base.{
  ℕ, suc, ◌-◌, Bytes, bytes_eq, ◌≡◌, refl, arith, Bool-cases, message, codes, Result, panic,
  Result-cases, List, [], inl, inr, ◌==◌, if◌then◌else◌,
}
use omnistorage.Base.Int.{ℤ}
use omnistorage.Base.Action.{Action, ◌>>=◌, pure, lift, fail_when}
use omnistorage.Paths.Clean.{path_join}
use omnistorage.Sftp.Config.{
  Config, Dialer, validate, with_defaults, key_file_auth, auth_methods, no_methods, open_session,
  new, or_wrapped,
}
use omnistorage.Base.Counting.{one_if_ok, one_if_ok-ok, one_if_ok-err, one_if_ok-panic}

-- How many SSH connections are open in a world: dialling adds the one that it gives, and closing one
-- takes it away. The start of a session over one returns.
pub record CountsConnections {W : Type 0} (D : Dialer W) : Type 0 where
  pub opened : W → ℕ
  pub by_read : (p : Bytes) (w : W) → opened (D.read_file p w).1 ≡ opened w
  pub by_home : (w : W) → opened (D.home_dir w).1 ≡ opened w
  pub by_hosts : (p : Bytes) (w : W) → opened (D.known_hosts p w).1 ≡ opened w
  pub by_dial :
      (host : Bytes) (port : ℤ) (user : Bytes) (timeout : ℤ) (auth : List D.Auth)
      (keys : D.HostKeys) (w : W)
      → opened (D.dial host port user timeout auth keys w).1
        ≡ one_if_ok (D.dial host port user timeout auth keys w).0 (opened w)
  pub by_session : (c : D.SshClient) (w : W) → opened (D.new_client c w).1 ≡ opened w
  pub by_close : (c : D.SshClient) (w : W) → opened (D.close_ssh c w).1 ≡ opened w - 1
  pub session_returns : (c : D.SshClient) (w : W) → ¬ ((D.new_client c w).0 ≡ panic)

module _ {W : Type 0} (D : Dialer W) (H : CountsConnections D) where
  -- An action that leaves as many connections as there were.
  abbrev Leaves : {A : Type 0} → Action W A → Type 0
  Leaves m = (w : W) → H.opened (m w).1 ≡ H.opened w

  -- An action that leaves one more if it gives something.
  abbrev Opens : {A : Type 0} → Action W A → Type 0
  Opens m = (w : W) → H.opened (m w).1 ≡ one_if_ok (m w).0 (H.opened w)

  or_wrapped-Leaves :
      {A : Type 0} (what : Bytes) (m : Action W A) → Leaves m → Leaves (or_wrapped D what m)
  or_wrapped-Leaves what m h w = let at = h w in ground (arith, Result-cases (m w).0)

  or_wrapped-Opens :
      {A : Type 0} (what : Bytes) (m : Action W A) → Opens m → Opens (or_wrapped D what m)
  unfolding one_if_ok
  or_wrapped-Opens what m h w = let at = h w in ground (arith, Result-cases (m w).0)

  >>=-Leaves :
      {A B : Type 0} (m : Action W A) (f : A → Action W B)
      → Leaves m
      → ((a : A) → Leaves (f a))
      → Leaves (m >>= f)
  >>=-Leaves m f here then_ w =
      let at = here w in
      elim (Result-cases (m w).0) [
        | inl (a, e) ↦ let next = then_ a (m w).1 in ground (arith, e, at, next)
        | inr (inl (x, e)) ↦ ground (arith, e, at)
        | inr (inr e) ↦ ground (arith, e, at)
      ]

  -- A chain whose last step opens.
  >>=-Opens :
      {A B : Type 0} (m : Action W A) (f : A → Action W B)
      → Leaves m
      → ((a : A) → Opens (f a))
      → Opens (m >>= f)
  unfolding one_if_ok
  >>=-Opens m f here then_ w =
      let at = here w in
      elim (Result-cases (m w).0) [
        | inl (a, e) ↦
            let next = then_ a (m w).1 in ground (arith, e, at, next, Result-cases (f a (m w).1).0)
        | inr (inl (x, e)) ↦ ground (arith, e, at)
        | inr (inr e) ↦ ground (arith, e, at)
      ]

  key_file_auth-Leaves : (file passphrase : Bytes) → Leaves (key_file_auth D file passphrase)
  unfolding key_file_auth
  key_file_auth-Leaves file passphrase =
      let reading = or_wrapped D (codes "reading key file") (D.read_file file) in
      let parsed : Bytes → Result D.Signer =
        λ key. if passphrase == [] then D.parse_key key else D.parse_key_with key passphrase in
      let parsing : Bytes → Action W D.Signer =
        λ key. or_wrapped D (codes "parsing private key") (lift (parsed key)) in
      >>=-Leaves reading (λ key. parsing key >>= λ signer. pure (D.key_auth signer))
        (or_wrapped-Leaves (codes "reading key file") (D.read_file file) (H.by_read file))
        λ key.
          >>=-Leaves (parsing key) (λ signer. pure (D.key_auth signer))
            (or_wrapped-Leaves (codes "parsing private key") (lift (parsed key)) (λ w. refl))
            λ signer w. refl

  auth_methods-Leaves : (c : Config) → Leaves (auth_methods D c)
  unfolding auth_methods
  auth_methods-Leaves c w =
      let loaded =
        or_wrapped-Leaves (codes "loading key file") (key_file_auth D c.key_file c.key_passphrase)
          (key_file_auth-Leaves c.key_file c.key_passphrase) w in
      let loading =
        or_wrapped D (codes "loading key file") (key_file_auth D c.key_file c.key_passphrase) in
      ground (arith, Bool-cases (c.key_file == []), loaded, Result-cases (loading w).0)

  open_session-opened :
      (c : Config) (ssh : D.SshClient) (w : W) (n : ℕ)
      → H.opened w ≡ suc n
      → H.opened (open_session D c ssh w).1 ≡ one_if_ok (open_session D c ssh w).0 n
  unfolding open_session one_if_ok
  open_session-opened c ssh w n h =
      let at = H.by_session ssh w in
      let closed = H.by_close ssh (D.new_client ssh w).1 in
      let returned : ¬ ((D.new_client ssh w).0 ≡ panic) = H.session_returns ssh w in
      ground (arith, Result-cases (D.new_client ssh w).0)

  connect-Opens :
      (c : Config) (methods : List D.Auth) (keys : D.HostKeys)
      → Opens (
          or_wrapped D
            (codes "SSH connection failed")
            (D.dial c.host c.port c.user c.timeout methods keys)
          >>= λ ssh. open_session D c ssh)
  unfolding one_if_ok
  connect-Opens c methods keys w =
      let dialling =
        or_wrapped D (codes "SSH connection failed")
          (D.dial c.host c.port c.user c.timeout methods keys) in
      let at =
        or_wrapped-Opens (codes "SSH connection failed")
          (D.dial c.host c.port c.user c.timeout methods keys)
          (H.by_dial c.host c.port c.user c.timeout methods keys) w in
      elim (Result-cases (dialling w).0) [
        | inl (ssh, e) ↦
            let next = open_session-opened c ssh (dialling w).1 (H.opened w) (one_if_ok-ok e at) in
            ground (arith, e, next)
        | inr (inl (x, e)) ↦ let same = one_if_ok-err e at in ground (arith, e, same)
        | inr (inr e) ↦ let same = one_if_ok-panic e at in ground (arith, e, same)
      ]

  -- With a dialler that counts the connections that are open: `New` of the SFTP backend leaves one
  -- more open if it gives a backend, and as many as there were if it fails, wherever it fails.
  pub new_leaks_nothing :
      (given : Config) (w : W)
      → H.opened (new D given w).1 ≡ one_if_ok (new D given w).0 (H.opened w)
  unfolding new
  new_leaks_nothing given =
      let c = with_defaults given in
      >>=-Opens (lift (validate given)) _ (λ w. refl)
        λ _. >>=-Opens (auth_methods D c) _ (auth_methods-Leaves c) λ methods.
          >>=-Opens
            (fail_when (no_methods D methods)
              (message "sftp: no authentication method provided" []))
            _ (λ w. refl)
            λ _.
              >>=-Opens (or_wrapped D (codes "could not determine user home directory") D.home_dir)
                _
                (or_wrapped-Leaves (codes "could not determine user home directory") D.home_dir
                  H.by_home)
                λ home.
                  let file = path_join (path_join home (codes ".ssh")) (codes "known_hosts") in
                  >>=-Opens
                    (or_wrapped D (codes "could not load known_hosts file") (D.known_hosts file)) _
                    (or_wrapped-Leaves (codes "could not load known_hosts file")
                      (D.known_hosts file) (H.by_hosts file))
                    λ keys. connect-Opens c methods keys
