-- ===== src/Doctor/Exact.antt =====
-- What the reports of clients/python/tay/doctor.py say.
use tay.Prelude.{
  ◌≡◌, ◌↔◌, ◌⊎◌, refl, Bool, true, false, Option, none, some, Bool-cases, inl, inr, &&-eq-true,
}
use tay.Prelude.Outcome.{Error, Outcome, ok, err}
use tay.Text.{Text, codes, mem, same}
use tay.Number.{Float}
use tay.Value.{Value, bool, str, Fields, get, put, lookup, is_key}
use tay.Validation.{positive_finite}
use tay.Responses.{equals, is_one_of}
use tay.Responses.Laws.{equals-str, is_one_of-str}
use tay.SocketPath.{Host, discover_socket_path}
use tay.Http.{Listener, request}
use tay.Http.Settings.{Url, Credentials, settings}
use tay.Doctor.{
  healthy, faulty, judged, limited, located, probe, constructed, diagnose_http, Stat, Probe,
  socket_failed, reached, inspected, socket_report, diagnose_socket,
}

-- The health endpoint answers that it is ready or compacting.
abbrev pub SaysHealthy : Fields → Type 0
SaysHealthy health =
    (get (codes "type") health ≡ str (codes "health"))
    × ((get (codes "state") health ≡ str (codes "ready"))
        ⊎ (get (codes "state") health ≡ str (codes "compacting")))

healthy_iff : (health : Fields) → (healthy health ≡ true) ↔ SaysHealthy health
unfolding healthy equals is_one_of mem same
healthy_iff health = (
  λ h.
      let (a, b) = &&-eq-true _ _ h in
      (equals-str _ (codes "health") a, is_one_of-str _ (codes "ready") (codes "compacting") b),
  λ w. states w,
)
  where
    states : SaysHealthy health → healthy health ≡ true
    states (a, inl b) = rw (a, b) refl
    states (a, inr b) = rw (a, b) refl

module _ {S : Type 0} (listener : Listener S) (class_name : Error → Text) where
  judged-ok :
      (base : Text) (r : Outcome Fields)
      → (get (codes "ok") (judged listener class_name (located base) r) ≡ bool true)
        ↔ ((health : Fields) × (r ≡ ok health) × (healthy health ≡ true))
  unfolding judged faulty get lookup is_key same put
  judged-ok base (err e) = (λ h. cc, λ w. let (x, q, p) = w in cc)
  judged-ok base (ok health) = elim (Bool-cases (healthy health)) [
    | inl e ↦ rw e (λ h. (health, refl, e), λ w. refl)
    | inr e ↦ rw e (λ h. cc, λ w. let (x, q, p) = w in cc)
  ]

  -- What a client that could be constructed learns from the listener.
  abbrev pub IsHealthy : Outcome (Unit {0}) → Bool → S → Type 0
  IsHealthy made in_time s =
      (health : Fields) × (made ≡ ok tt)
      × (in_time ≡ true)
      × ((request listener (codes "GET") (codes "/health") none none s).0 ≡ ok health)
      × SaysHealthy health

  limited-true :
      (in_time : Bool) (r : Outcome Fields) (h : Fields)
      → limited listener class_name in_time r ≡ ok h
      → (in_time ≡ true) × (r ≡ ok h)
  limited-true true r h e = (refl, e)
  limited-true false r h e = cc

  probe-ok :
      (base : Text) (in_time : Bool) (made : Outcome (Unit {0})) (s : S)
      → (get (codes "ok") (probe listener class_name base in_time made s).0 ≡ bool true)
        ↔ IsHealthy made in_time s
  unfolding probe faulty get same put
  probe-ok base in_time (err e) s = (λ h. cc, λ w. let (x, q, t, r, p) = w in cc)
  probe-ok base in_time (ok u) s =
      let reply = (request listener (codes "GET") (codes "/health") none none s).0 in
      let j = judged-ok base (limited listener class_name in_time reply) in
      (
        λ h.
            let (health, e, p) = j.0 h in
            let (t, r) = limited-true in_time reply health e in
            (health, refl, t, r, (healthy_iff health).0 p),
        λ w. let (health, m, t, r, p) = w in j.1 (health, rw (t, r) refl, (healthy_iff health).1 p),
      )

  -- With a valid timeout the diagnosis of an HTTP listener always returns a report, whatever the
  -- settings, the credentials and the listener do. It sends nothing but a GET of /health without a
  -- body, and that at most once. The report says "ok" exactly when the client could be constructed and
  -- the listener answered in time that it is healthy, with the state "ready" or "compacting".
  pub diagnose_http_exact :
      (ip_loopback : Text → Option Bool) (base : Text) (url : Url) (credentials : Credentials)
      (loaded : Outcome (Unit {0})) (in_time : Bool) (timeout : Value) (limit : Float) (s : S)
      → positive_finite timeout ≡ ok limit
      → (report : Fields) × ((diagnose_http listener class_name ip_loopback base url credentials
            loaded in_time timeout s).0
          ≡ ok report)
        × ((get (codes "ok") report ≡ bool true)
            ↔ IsHealthy
                (constructed listener class_name
                  (settings ip_loopback url timeout credentials)
                  loaded)
                in_time
                s)
        × (((diagnose_http listener class_name ip_loopback base url credentials loaded in_time
                timeout s).1
              ≡ s)
            ⊎ ((diagnose_http listener class_name ip_loopback base url credentials loaded in_time
                  timeout s).1
                ≡ (request listener (codes "GET") (codes "/health") none none s).1))
  unfolding diagnose_http
  diagnose_http_exact ip_loopback base url credentials loaded in_time timeout limit s h =
      let made =
        constructed listener class_name (settings ip_loopback url timeout credentials) loaded in
      (
        (probe listener class_name base in_time made s).0,
        rw h refl,
        probe-ok base in_time made s,
        rw h (sent made),
      )
    where
      sent :
          (made : Outcome (Unit {0}))
          → ((probe listener class_name base in_time made s).1 ≡ s)
            ⊎ ((probe listener class_name base in_time made s).1
                ≡ (request listener (codes "GET") (codes "/health") none none s).1)
      sent (err e) = unfold probe in inl refl
      sent (ok u) = unfold probe in inr refl

module _ (host : Host) (probes : Probe) (path source : Text) where
  -- The path is a socket that accepts a connection.
  abbrev pub IsReached : Type 0
  IsReached =
      (info : Stat) × (probes.stat path ≡ inl info)
      × (info.is_socket ≡ true)
      × (probes.connect path ≡ none)

  abbrev pub IsReport : Fields → Type 0
  IsReport report =
      ((get (codes "ok") report ≡ bool true) ↔ IsReached)
      × (get (codes "path") report ≡ str path)
      × (get (codes "source") report ≡ str source)

  no_socket : (info : Stat) → info.is_socket ≡ false → probes.stat path ≡ inl info → ¬ IsReached
  no_socket info e q (x, a, b, c) = cc

  inspected-IsReport :
      (r : Stat ⊎ Text) (o : Option Text)
      → probes.stat path ≡ r
      → probes.connect path ≡ o
      → IsReport (inspected host probes path r (socket_report host probes path source))
  unfolding inspected reached socket_failed get same put
  inspected-IsReport (inr class_name) o q p =
      ((λ h. cc, λ w. let (x, a, b, c) = w in cc (q, a)), refl, refl)
  inspected-IsReport (inl info) none q p = elim (Bool-cases info.is_socket) [
    | inl e ↦ rw (e, p) ((λ h. (info, q, e, refl), λ w. refl), refl, refl)
    | inr e ↦ rw e ((λ h. cc, λ w. absurd (no_socket info e q w)), refl, refl)
  ]
  inspected-IsReport (inl info) (some class_name) q p = elim (Bool-cases info.is_socket) [
    | inl e ↦ rw (e, p) ((λ h. cc, λ w. let (x, a, b, c) = w in cc), refl, refl)
    | inr e ↦ rw e ((λ h. cc, λ w. absurd (no_socket info e q w)), refl, refl)
  ]

  -- With a valid timeout and a path that was found, the diagnosis of a socket always returns a report. It
  -- names that path and where the path comes from, and says "ok" exactly when the path is a socket to
  -- which a connection could be opened.
  pub diagnose_socket_exact :
      (explicit : Option Text) (timeout : Value) (limit : Float)
      → positive_finite timeout ≡ ok limit
      → discover_socket_path host explicit ≡ ok (path, source)
      → (report : Fields) × (diagnose_socket host probes explicit timeout ≡ ok report)
        × IsReport report
  unfolding diagnose_socket
  diagnose_socket_exact explicit timeout limit h k = (
    inspected host probes path (probes.stat path) (socket_report host probes path source),
    rw (h, k) refl,
    inspected-IsReport (probes.stat path) (probes.connect path) refl refl,
  )
