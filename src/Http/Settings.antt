-- ===== src/Http/Settings.antt =====
-- The constructor of `TayHTTP` (clients/python/tay/http.py): the URL, the timeout and the credentials.
-- `urlsplit`, `ip_address` and the loading of the files come from outside.
use tay.Prelude.{
  ℕ, ◌≤◌, ◌≡◌, ◌⊎◌, Bool, true, false, not, ◌&&◌, ◌||◌, Option, none, some, [], ◌∷◌, leb, arith,
  Bool-cases, inl, inr, if◌then◌else◌,
}
use tay.Prelude.Outcome.{Outcome, ok, err, validation, ◌>>=◌, ◌>>◌, reject, Outcome-cases}
use tay.Text.{Text, codes, same, mem, is_empty}
use tay.Number.{Float}
use tay.Value.{Value}
use tay.Validation.{positive_finite}

-- A `SplitResult`. `port` is the outcome of reading it, which raises for a bad port.
pub record Url : Type 0 where
  pub scheme : Text
  pub hostname : Option Text
  pub path : Text
  pub query : Text
  pub fragment : Text
  pub username : Option Text
  pub password : Option Text
  pub port : Outcome (Option ℕ)

-- Which credentials were given.
pub record Credentials : Type 0 where
  pub ca_file : Bool
  pub cert_file : Bool
  pub key_file : Bool
  pub pkcs12_file : Bool
  pub pkcs12_password : Bool

-- How the connection is secured: the default context, with the files of the client, or a bundle.
pub data Security : Type 0 where
  plain server_only pem bundle : Security

abbrev pub empty_or_none : Option Text → Bool
empty_or_none none = true
empty_or_none (some t) = is_empty t

unfoldable pub is_origin : Url → Bool
is_origin u =
    mem u.scheme (codes "http" ∷ codes "https" ∷ [])
    && (not (empty_or_none u.hostname)
        && (mem u.path ([] ∷ codes "/" ∷ [])
            && (is_empty u.query
                && (is_empty u.fragment
                    && (empty_or_none u.username && empty_or_none u.password)))))

unfoldable pub check_port : Outcome (Option ℕ) → Outcome (Unit {0})
check_port (err e) = err validation
check_port (ok none) = ok tt
check_port (ok (some port)) = reject (not (leb 1 port && leb port 65535)) validation

-- A port that is missing, or in range.
abbrev pub IsPort : Outcome (Option ℕ) → Type 0
IsPort (err e) = ⊥
IsPort (ok none) = Unit
IsPort (ok (some n)) = (1 ≤ n) × (n ≤ 65535)

abbrev pub any_file : Credentials → Bool
any_file c = c.ca_file || (c.cert_file || c.key_file)

abbrev pub all_files : Credentials → Bool
all_files c = c.ca_file && (c.cert_file && c.key_file)

unfoldable pub check_credentials : Credentials → Outcome (Unit {0})
check_credentials c = do
  reject (c.pkcs12_file && any_file c) validation
  reject (not c.pkcs12_file && c.pkcs12_password) validation
  reject (any_file c && not (all_files c)) validation

abbrev pub is_https : Url → Bool
is_https u = same u.scheme (codes "https")

module _ (ip_loopback : Text → Option Bool) where
  -- `ip_address(hostname).is_loopback`, and the name `localhost` where it is no address
  abbrev pub loopback_of : Option Bool → Text → Bool
  loopback_of none hostname = same hostname (codes "localhost")
  loopback_of (some b) hostname = b

  unfoldable pub is_loopback : Url → Bool
  is_loopback u = elim u.hostname [ none ↦ false | some h ↦ loopback_of (ip_loopback h) h ]

  unfoldable pub check_transport : Url → Credentials → Outcome (Unit {0})
  check_transport u c = do
    reject (not (is_loopback u) && (not (is_https u) || (not c.ca_file && not c.pkcs12_file)))
        validation
    reject ((c.ca_file || c.pkcs12_file) && not (is_https u)) validation

  unfoldable pub security : Url → Credentials → Security
  security u c =
      if not (is_https u)
      then plain
      else if c.pkcs12_file
      then bundle
      else if c.cert_file
      then pem
      else server_only

  -- `TayHTTP.__init__`: the timeout and the security of what was constructed.
  unfoldable pub settings : Url → Value → Credentials → Outcome (Float × Security)
  unfolding is_origin check_port check_credentials check_transport security
  settings u request_timeout c = do
    reject (not (is_origin u)) validation
    check_port u.port
    timeout ← positive_finite request_timeout
    check_credentials c
    check_transport u c
    ok (timeout, security u c)

  transport_secure :
      (u : Url) (c : Credentials)
      → check_credentials c ≡ ok tt
      → check_transport u c ≡ ok tt
      → ((is_loopback u ≡ true)
          ⊎ ((is_https u ≡ true) × ((security u c ≡ pem) ⊎ (security u c ≡ bundle))))
        × ((is_https u ≡ true) ⊎ (security u c ≡ plain))
  unfolding check_credentials check_transport security
  transport_secure u c h k = elim (Bool-cases (is_https u)) [
    | inl e ↦ elim (Bool-cases (is_loopback u)) [
      | inl l ↦ (inl l, inl e)
      | inr l ↦ elim (Bool-cases c.pkcs12_file) [
        | inl b ↦ (inr (e, inr (ground arith)), inl e)
        | inr b ↦ (inr (e, inl (ground arith)), inl e)
      ]
    ]
    | inr e ↦ (inl (ground arith), inr (ground arith))
  ]

  check_port-IsPort : (p : Outcome (Option ℕ)) → check_port p ≡ ok tt → IsPort p
  unfolding check_port
  check_port-IsPort (err e) h = cc
  check_port-IsPort (ok none) h = tt
  check_port-IsPort (ok (some n)) h = (ground arith, ground arith)

  -- A client that is constructed reaches any host but a loopback one over HTTPS with a client
  -- certificate, from PEM files or from a bundle; without HTTPS it uses no TLS at all; and the port of
  -- its URL, where one is given, is between 1 and 65535.
  pub settings_secure :
      (u : Url) (v : Value) (c : Credentials) (timeout : Float) (s : Security)
      → settings u v c ≡ ok (timeout, s)
      → ((is_loopback u ≡ true) ⊎ ((is_https u ≡ true) × ((s ≡ pem) ⊎ (s ≡ bundle))))
        × ((is_https u ≡ true) ⊎ (s ≡ plain))
        × IsPort u.port
  unfolding settings
  settings_secure u v c timeout s h = elim (Outcome-cases (positive_finite v)) [
    | inr (e, p) ↦ absurd (ground arith)
    | inl (x, p) ↦
        let q : security u c ≡ s = ground arith in
        let (a, b) = transport_secure u c (ground arith) (ground arith) in
        (rw q at a, rw q at b, check_port-IsPort u.port (ground arith))
  ]
