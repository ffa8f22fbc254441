-- ===== src/Protocol/Envelope.antt =====
-- `validate_envelope` of clients/python/tay/protocol.py.
pub mod Laws
use tay.Prelude.{ℕ, Bool, true, false, not, ◌&&◌, Option, none, some, ltb, ◌==◌, if◌then◌else◌}
use tay.Prelude.Outcome.{Outcome, ok, err, protocol, value_error, ◌>>=◌, ◌>>◌, reject}
use tay.Text.{Text, codes, is_empty, utf8_size}
use tay.Number.{pos, finite, unit}
use tay.Value.{Value, bool, int, float, str, dict, Fields, get, is_none}
use tay.Protocol.{normalize_json}

-- `version == PROTOCOL_VERSION`: Python holds True and 1.0 equal to 1.
unfoldable pub is_version : Value → Bool
unfolding unit
is_version (int (pos n)) = n == 1
is_version (bool b) = b
is_version (float (finite s n)) = not s && n == unit
is_version _ = false

unfoldable pub version_of : Bool → Fields → Value
unfolding get
version_of incoming fs =
    let version = get (codes "version") fs in
    if incoming && is_none version then get (codes "v") fs else version

-- The tests on the size of a text; encoding a lone surrogate raises a ValueError.
unfoldable pub check_size : ℕ → Option ℕ → Outcome (Unit {0})
check_size limit none = err value_error
check_size limit (some size) = reject (ltb limit size) protocol

-- A non-empty text of at most `limit` UTF-8 bytes.
unfoldable pub check_header : ℕ → Value → Outcome (Unit {0})
unfolding check_size
check_header limit (str t) = do reject (is_empty t) protocol; check_size limit (utf8_size t)
check_header limit _ = err protocol

unfoldable pub as_object : Value → Outcome Fields
as_object (dict fs) = ok fs
as_object _ = err protocol

unfoldable pub validate_envelope : Bool → Value → Outcome Fields
unfolding is_version version_of check_header as_object
validate_envelope incoming envelope = do
  normalized ← normalize_json envelope
  fs ← as_object normalized
  reject (not (is_version (version_of incoming fs))) protocol
  check_header 64 (get (codes "type") fs)
  check_header 128 (get (codes "request_id") fs)
  ok fs
