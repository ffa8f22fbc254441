-- ===== src/Doctor.antt =====
-- clients/python/tay/doctor.py: read-only diagnostics of a transport, as the report that is returned.
pub mod Exact
use tay.Prelude.{
  ℕ, Bool, true, false, ◌&&◌, Option, none, some, List, [], ◌∷◌, ◌==◌, ◌⊎◌, inl, inr, if◌then◌else◌,
}
use tay.Prelude.Outcome.{
  Error, Outcome, ok, err, server, remote_task, job_cancelled, result_missing, timeout_error, ◌>>=◌,
}
use tay.Text.{Text, codes}
use tay.Number.{Float, ℤ, pos}
use tay.Value.{Value, null, bool, str, int, list, Fields, Items, end, field, name, get, put}
use tay.Validation.{positive_finite}
use tay.Responses.{equals, is_one_of}
use tay.SocketPath.{Host, discover_socket_path}
use tay.Http.{Listener, request}
use tay.Http.Settings.{Url, Credentials, Security, settings}

abbrev pub code_value : Option Text → Value
code_value none = null
code_value (some t) = str t

-- `exc.code if isinstance(exc, ServerError) else type(exc).__name__`
unfoldable pub category : (Error → Text) → Error → Value
category class_name (server code) = code_value code
category class_name (remote_task code) = code_value code
category class_name (job_cancelled code) = code_value code
category class_name (result_missing code) = code_value code
category class_name e = str (class_name e)

-- `base_url.rstrip("/")`
abbrev pub before_end : ℕ → Text → Text
before_end c [] = if c == b'/' then [] else c ∷ []
before_end c (d ∷ t) = c ∷ d ∷ t

unfoldable pub without_slashes : Text → Text
without_slashes [] = []
without_slashes (c ∷ t) = before_end c (without_slashes t)

-- `text.startswith(prefix)`
unfoldable pub starts_with : Text → Text → Bool
starts_with [] t = true
starts_with (c ∷ p) [] = false
starts_with (c ∷ p) (d ∷ t) = c == d && starts_with p t

abbrev pub new_report : Text → Fields
new_report transport =
    field (name (codes "transport")) (str transport) (field (name (codes "ok")) (bool false) end)

abbrev pub http_hint : Text
http_hint = codes "check origin, listener readiness and mTLS credential configuration"

abbrev pub located : Text → Fields
located base_url =
    let origin = without_slashes base_url in
    put (codes "tls") (bool (starts_with (codes "https://") origin))
      (put (codes "origin") (str origin) (new_report (codes "http")))

unfoldable pub healthy : Fields → Bool
healthy health =
    equals (get (codes "type") health) (codes "health")
    && is_one_of (get (codes "state") health) (codes "ready" ∷ codes "compacting" ∷ [])

module _ {S : Type 0} (listener : Listener S) (class_name : Error → Text) where
  unfoldable pub faulty : Error → Fields → Fields
  unfolding category
  faulty e report =
      put (codes "hint") (str http_hint) (put (codes "error") (category class_name e) report)

  -- The reply of the health endpoint, in the report
  unfoldable pub judged : Fields → Outcome Fields → Fields
  unfolding faulty healthy
  judged report (ok health) =
      if healthy health
      then put (codes "ok") (bool true) (put (codes "state") (get (codes "state") health) report)
      else put (codes "error") (str (codes "invalid_health_response")) report
  judged report (err e) = faulty e report

  -- `asyncio.timeout(timeout)`, around the request
  abbrev pub limited : Bool → Outcome Fields → Outcome Fields
  limited true r = r
  limited false r = err timeout_error

  -- From the constructor on: the checks of the settings, then what loading the credentials raises.
  unfoldable pub probe : Text → Bool → Outcome (Unit {0}) → S → Fields × S
  unfolding judged
  probe base_url in_time (err e) s = (faulty e (new_report (codes "http")), s)
  probe base_url in_time (ok u) s =
      let (r, s') = request listener (codes "GET") (codes "/health") none none s in
      (judged (located base_url) (limited in_time r), s')

  abbrev pub constructed : Outcome (Float × Security) → Outcome (Unit {0}) → Outcome (Unit {0})
  constructed checked loaded = do c ← checked; loaded

  abbrev pub with_timeout : Outcome Float → Fields × S → S → Outcome Fields × S
  with_timeout (err e) r s = (err e, s)
  with_timeout (ok t) r s = (ok r.0, r.1)

  -- `diagnose_http(base_url, timeout=…, …)`
  unfoldable pub diagnose_http :
      (Text → Option Bool)
      → Text
      → Url
      → Credentials
      → Outcome (Unit {0})
      → Bool
      → Value
      → S
      → Outcome Fields × S
  unfolding probe
  diagnose_http ip_loopback base_url url credentials loaded in_time timeout s =
      with_timeout (positive_finite timeout)
        (probe base_url in_time (constructed (settings ip_loopback url timeout credentials) loaded)
          s)
        s

-- `os.stat` of the path: the owner, the mode as `oct` writes it, and whether it is a socket
pub record Stat : Type 0 where
  pub uid : ℕ
  pub gid : ℕ
  pub mode : Text
  pub is_socket : Bool

-- What the host tells of a path. `stat` and `connect` are what they give, or the name of the class of
-- the OSError or TimeoutError that they raise.
pub record Probe : Type 0 where
  pub uid : ℕ
  pub gid : ℕ
  pub groups : Items
  pub searchable : Bool
  pub writable : Bool
  pub stat : Text → Stat ⊎ Text
  pub connect : Text → Option Text

abbrev pub socket_hint : Text
socket_hint =
    codes
      "check listener, shared socket volume, UID/GID and directory search/socket write permissions"

unfoldable pub socket_failed : Text → Fields → Fields
socket_failed class_name report =
    put (codes "hint") (str socket_hint) (put (codes "error") (str class_name) report)

module _ (host : Host) (probes : Probe) where
  abbrev number : ℕ → Value
  number n = int (pos n)

  abbrev pub socket_report : Text → Text → Fields
  socket_report path source = field (name (codes "transport")) (str (codes "socket")) (
      field (name (codes "path")) (str path) (
        field (name (codes "source")) (str source) (
          field (name (codes "uid")) (number probes.uid) (
            field (name (codes "gid")) (number probes.gid) (
              field (name (codes "groups")) (list probes.groups)
                (field (name (codes "ok")) (bool false) end))))))

  abbrev pub described : Stat → Fields → Fields
  described info report = put (codes "socket_writable") (bool probes.writable) (
      put (codes "parent_searchable") (bool probes.searchable) (
        put (codes "socket_mode") (str info.mode) (
          put (codes "socket_gid") (number info.gid)
            (put (codes "socket_uid") (number info.uid) report))))

  unfoldable pub reached : Option Text → Fields → Fields
  unfolding socket_failed
  reached none report = put (codes "ok") (bool true) report
  reached (some class_name) report = socket_failed class_name report

  unfoldable pub inspected : Text → Stat ⊎ Text → Fields → Fields
  unfolding reached
  inspected path (inr class_name) report = socket_failed class_name report
  inspected path (inl info) report =
      let full = described info report in
      if info.is_socket
      then reached (probes.connect path) full
      else put (codes "error") (str (codes "selected path is not a Unix socket")) full

  -- `diagnose_socket(path, timeout=…)`
  unfoldable pub diagnose_socket : Option Text → Value → Outcome Fields
  unfolding inspected
  diagnose_socket explicit timeout = do
    limit ← positive_finite timeout
    (path, source) ← discover_socket_path host explicit
    ok (inspected path (probes.stat path) (socket_report path source))
