-- ===== src/Protocol/Frame.antt =====
-- Frames of clients/python/tay/protocol.py: four bytes of length, most significant first, and the
-- payload. The stream is the bytes that are still to come before it closes.
pub mod Laws
pub mod Bounds
use tay.Prelude.{
  ℕ, ◌+◌, ◌*◌, ◌/◌, ◌%◌, Bool, true, false, ◌||◌, Option, none, some, List, [], ◌∷◌, ◌++◌, leb, ltb,
  ◌==◌, length, take, drop, if◌then◌else◌,
}
use tay.Prelude.Outcome.{
  Outcome, ok, err, protocol, value_error, struct_error, connection_error, ◌>>=◌, ◌>>◌, reject,
}
use tay.Text.{Bytes}
use tay.Value.{Value, dict, Fields}
use tay.Protocol.Codec.{Json, json_bytes, hooked}
use tay.Protocol.Envelope.{validate_envelope, as_object}

-- `struct.pack(">I", n)`, which refuses what does not fit 32 bits
unfoldable pub pack : ℕ → Outcome Bytes
pack n = do
  reject (leb 0x100000000 n) struct_error
  ok (n / 0x1000000 ∷ n / 0x10000 % 256 ∷ n / 256 % 256 ∷ n % 256 ∷ [])

-- `struct.unpack(">I", header)[0]`
unfoldable pub unpack : Bytes → ℕ
unpack (a ∷ b ∷ c ∷ d ∷ []) = a * 0x1000000 + b * 0x10000 + c * 256 + d
unpack _ = 0

-- `reader.readexactly(n)`, and the ConnectionError that an incomplete read becomes
unfoldable pub readexactly : ℕ → Bytes → Outcome (Bytes × Bytes)
readexactly n stream =
    if leb n (length stream) then ok (take n stream, drop n stream) else err connection_error

module _ (json : Json) where
  unfoldable pub encode_frame : ℕ → Value → Outcome Bytes
  unfolding pack json_bytes
  encode_frame max_frame_bytes envelope = do
    reject (ltb max_frame_bytes 1) value_error
    normalized ← validate_envelope false envelope
    payload ← json_bytes json (dict normalized)
    reject (length payload == 0 || ltb max_frame_bytes (length payload)) protocol
    header ← pack (length payload)
    ok (header ++ payload)

  unfoldable pub parse_payload : Option Value → Outcome Value
  parse_payload none = err protocol
  parse_payload (some v) = hooked v

  unfoldable pub decode_payload : ℕ → Bytes → Outcome Fields
  unfolding parse_payload as_object
  decode_payload max_frame_bytes payload = do
    reject (length payload == 0 || ltb max_frame_bytes (length payload)) protocol
    parsed ← parse_payload (json.loads payload)
    fs ← as_object parsed
    validate_envelope true (dict fs)

  -- The frame's envelope, and the rest of the stream.
  unfoldable pub read_frame : ℕ → Bytes → Outcome (Fields × Bytes)
  read_frame max_frame_bytes stream = do
    (header, body) ← readexactly 4 stream
    let size = unpack header
    reject (size == 0 || ltb max_frame_bytes size) protocol
    (payload, rest) ← readexactly size body
    fs ← decode_payload max_frame_bytes payload
    ok (fs, rest)
