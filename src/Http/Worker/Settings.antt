-- ===== src/Http/Worker/Settings.antt =====
-- The checks of the constructor `TayHTTPWorker.__init__` (clients/python/tay/http.py).
use tay.Prelude.{ℕ, ◌≤◌, ◌≡◌, ◌⊎◌, true, false, Bool, not, ◌&&◌, Option, leb, arith}
use tay.Prelude.Outcome.{
  Outcome, ok, err, validation, ◌>>=◌, ◌>>◌, reject, bind_inversion, reject-eq-ok,
}
use tay.Text.{Text}
use tay.Number.{pos, negsuc, Float, exact}
use tay.Value.{Value, null, int}
use tay.Protocol.{validate_task_name}
use tay.Validation.{identifier}
use tay.Client.Backoff.{below}
use tay.Http.Settings.{
  Url, Credentials, Security, pem, bundle, is_loopback, is_https, settings, settings_secure,
}
use tay.Http.Worker.{max_worker_capacity}

-- `_MIN_WORKER_REQUEST_TIMEOUT_SECONDS`
unfoldable pub min_request_timeout : Float
min_request_timeout = exact (pos 25)

pub record WorkerSettings : Type 0 where
  pub request_timeout : Float
  pub security : Security
  pub capacity : ℕ
  pub queue : Text
  pub runtime_id : Text

-- `type(capacity) is not int or not 1 <= capacity <= 256`
unfoldable pub worker_capacity : Value → Outcome ℕ
worker_capacity (int (pos n)) = do
  reject (not (leb 1 n && leb n max_worker_capacity)) validation
  ok n
worker_capacity _ = err validation

worker_capacity_bounds : (v : Value) (n : ℕ) → worker_capacity v ≡ ok n → (1 ≤ n) × (n ≤ 256)
unfolding worker_capacity
worker_capacity_bounds (int (pos m)) n h = (ground arith, ground arith)
worker_capacity_bounds null n h = cc
worker_capacity_bounds (int (negsuc m)) n h = cc
worker_capacity_bounds _ n h = cc

module _ (ip_loopback : Text → Option Bool) where
  -- `runtime_id` is the generated one where none was given.
  unfoldable pub construct :
      Url → Value → Credentials → Value → Value → Value → Outcome WorkerSettings
  unfolding worker_capacity
  construct url request_timeout credentials queue capacity runtime_id = do
    (timeout, security) ← settings ip_loopback url request_timeout credentials
    reject (below timeout min_request_timeout) validation
    slots ← worker_capacity capacity
    queue_name ← validate_task_name queue
    id ← identifier runtime_id
    ok (record {
      request_timeout = timeout;
      security = security;
      capacity = slots;
      queue = queue_name;
      runtime_id = id;
    })

  -- An HTTP worker that is constructed has a capacity from 1 to 256, waits at least 25 seconds for an
  -- answer, and claims jobs from any host but a loopback one only over HTTPS with a client certificate.
  pub construct_worker_bounds :
      (url : Url) (request_timeout : Value) (credentials : Credentials)
      (queue capacity runtime_id : Value) (s : WorkerSettings)
      → construct url request_timeout credentials queue capacity runtime_id ≡ ok s
      → (1 ≤ s.capacity)
        × (s.capacity ≤ 256)
        × (below s.request_timeout min_request_timeout ≡ false)
        × ((is_loopback ip_loopback url ≡ true)
            ⊎ ((is_https url ≡ true) × ((s.security ≡ pem) ⊎ (s.security ≡ bundle))))
  unfolding construct
  construct_worker_bounds url request_timeout credentials queue capacity runtime_id s h =
      let ((t, sec), safe, h1) =
        bind_inversion (settings ip_loopback url request_timeout credentials) _ s h in
      let (u, waits, h2) =
        bind_inversion (reject (below t min_request_timeout) validation) _ s h1 in
      let (slots, room, h3) = bind_inversion (worker_capacity capacity) _ s h2 in
      let (q, named, h4) = bind_inversion (validate_task_name queue) _ s h3 in
      let (id, known, h5) = bind_inversion (identifier runtime_id) _ s h4 in
      let (low, high) = worker_capacity_bounds capacity slots room in
      let late = reject-eq-ok _ validation waits in
      let secure = (settings_secure ip_loopback url request_timeout credentials t sec safe).0 in
      ground (arith, h5, low, high, late, secure)
