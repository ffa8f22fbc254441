-- ===== src/Client/Settings.antt =====
-- The checks of the constructor `Tay.__init__` (clients/python/tay/client.py).
use tay.Prelude.{ℕ, ◌≤◌, ◌≡◌, Bool, true, false, not, ◌&&◌, List, [], ◌∷◌, leb, ltb, arith}
use tay.Prelude.Outcome.{Outcome, ok, err, validation, ◌>>=◌, ◌>>◌, reject, bind_inversion}
use tay.Text.{Text, codes, mem}
use tay.Number.{pos, negsuc, Float, finite}
use tay.Value.{Value, null, int, str}
use tay.Validation.{positive_finite, identifier}

abbrev pub modes : List Text
modes = codes "client" ∷ codes "embedded" ∷ codes "worker" ∷ []

pub record Settings : Type 0 where
  pub mode : Text
  pub socket_path : Text
  pub capacity : ℕ
  pub max_frame_bytes : ℕ
  pub max_result_bytes : ℕ
  pub max_error_bytes : ℕ
  pub request_timeout : Float
  pub connect_timeout : Float
  pub reconnect_initial_delay : Float
  pub reconnect_max_delay : Float
  pub client_id : Text

unfoldable pub check_client_mode : Value → Outcome Text
check_client_mode (str t) = do reject (not (mem t modes)) validation; ok t
check_client_mode _ = err validation

-- `type(value) is int`, in a range of numbers that are not negative
unfoldable pub int_between : ℕ → ℕ → Value → Outcome ℕ
int_between lo hi (int (pos n)) = do reject (not (leb lo n && leb n hi)) validation; ok n
int_between lo hi _ = err validation

unfoldable pub int_from : ℕ → Value → Outcome ℕ
int_from lo (int (pos n)) = do reject (ltb n lo) validation; ok n
int_from lo _ = err validation

-- `x < y`, for positive finite numbers
unfoldable pub less : Float → Float → Bool
less (finite s m) (finite r n) = ltb m n
less _ _ = false

-- What the constructor takes, each argument as it was given; `socket_path` is what
-- `resolve_socket_path` gives or raises, and `client_id` is the generated one where none was given.
pub record Arguments : Type 0 where
  pub mode : Value
  pub socket_path : Outcome Text
  pub capacity : Value
  pub max_frame_bytes : Value
  pub max_result_bytes : Value
  pub max_error_bytes : Value
  pub request_timeout : Value
  pub connect_timeout : Value
  pub reconnect_initial_delay : Value
  pub reconnect_max_delay : Value
  pub client_id : Value

unfoldable pub construct : Arguments → Outcome Settings
unfolding check_client_mode int_between int_from
construct a = do
  mode ← check_client_mode a.mode
  capacity ← int_between 1 65535 a.capacity
  max_frame_bytes ← int_from 256 a.max_frame_bytes
  max_result_bytes ← int_from 1 a.max_result_bytes
  max_error_bytes ← int_from 128 a.max_error_bytes
  request_timeout ← positive_finite a.request_timeout
  connect_timeout ← positive_finite a.connect_timeout
  initial ← positive_finite a.reconnect_initial_delay
  maximum ← positive_finite a.reconnect_max_delay
  reject (less maximum initial) validation
  socket_path ← a.socket_path
  client_id ← identifier a.client_id
  ok (record {
    mode = mode;
    socket_path = socket_path;
    capacity = capacity;
    max_frame_bytes = max_frame_bytes;
    max_result_bytes = max_result_bytes;
    max_error_bytes = max_error_bytes;
    request_timeout = request_timeout;
    connect_timeout = connect_timeout;
    reconnect_initial_delay = initial;
    reconnect_max_delay = maximum;
    client_id = client_id;
  })

int_between-le : (lo hi : ℕ) (v : Value) (n : ℕ) → int_between lo hi v ≡ ok n → (lo ≤ n) × (n ≤ hi)
unfolding int_between
int_between-le lo hi (int (pos m)) n h = (ground arith, ground arith)
int_between-le lo hi null n h = cc
int_between-le lo hi (int (negsuc m)) n h = cc
int_between-le lo hi _ n h = cc

int_from-le : (lo : ℕ) (v : Value) (n : ℕ) → int_from lo v ≡ ok n → lo ≤ n
unfolding int_from
int_from-le lo (int (pos m)) n h = ground arith
int_from-le lo null n h = cc
int_from-le lo (int (negsuc m)) n h = cc
int_from-le lo _ n h = cc

check_client_mode-mem : (v : Value) (t : Text) → check_client_mode v ≡ ok t → mem t modes ≡ true
unfolding check_client_mode
check_client_mode-mem (str s) t h = ground arith
check_client_mode-mem null t h = cc
check_client_mode-mem _ t h = cc

-- A client that is constructed has one of the three modes, a capacity between 1 and 65535, frames of
-- at least 256 bytes, results of at least one and errors of at least 128, and its longest delay between
-- connections is not shorter than the first.
pub construct_bounds :
    (a : Arguments) (s : Settings)
    → construct a ≡ ok s
    → (mem s.mode modes ≡ true)
      × (1 ≤ s.capacity)
      × (s.capacity ≤ 65535)
      × (256 ≤ s.max_frame_bytes)
      × (1 ≤ s.max_result_bytes)
      × (128 ≤ s.max_error_bytes)
      × (less s.reconnect_max_delay s.reconnect_initial_delay ≡ false)
unfolding construct
construct_bounds a s h =
    let (mode, in_modes, h1) = bind_inversion (check_client_mode a.mode) _ s h in
    let (capacity, in_range, h2) = bind_inversion (int_between 1 65535 a.capacity) _ s h1 in
    let (frame, frames, h3) = bind_inversion (int_from 256 a.max_frame_bytes) _ s h2 in
    let (result, results, h4) = bind_inversion (int_from 1 a.max_result_bytes) _ s h3 in
    let (error, errors, h5) = bind_inversion (int_from 128 a.max_error_bytes) _ s h4 in
    let (t1, p1, h6) = bind_inversion (positive_finite a.request_timeout) _ s h5 in
    let (t2, p2, h7) = bind_inversion (positive_finite a.connect_timeout) _ s h6 in
    let (initial, p3, h8) = bind_inversion (positive_finite a.reconnect_initial_delay) _ s h7 in
    let (maximum, p4, h9) = bind_inversion (positive_finite a.reconnect_max_delay) _ s h8 in
    let (u, delays, h10) = bind_inversion (reject (less maximum initial) validation) _ s h9 in
    let (path, p5, h11) = bind_inversion a.socket_path _ s h10 in
    let (id, p6, built) = bind_inversion (identifier a.client_id) _ s h11 in
    ground (
      arith,
      check_client_mode-mem a.mode mode in_modes,
      int_between-le 1 65535 a.capacity capacity in_range,
      int_from-le 256 a.max_frame_bytes frame frames,
      int_from-le 1 a.max_result_bytes result results,
      int_from-le 128 a.max_error_bytes error errors,
    )
