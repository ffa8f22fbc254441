-- ===== src/Http.antt =====
-- clients/python/tay/http.py: one exchange with the HTTP listener, and what its answer becomes.
pub mod Settings
pub mod Answers
pub mod Producer
pub mod Worker
use tay.Prelude.{
  ℕ, suc, Bool, true, false, not, ◌&&◌, ◌||◌, Option, none, some, List, [], ◌∷◌, ◌==◌, leb, ltb,
  length, take, any, if◌then◌else◌,
}
use tay.Prelude.Outcome.{Outcome, ok, err, protocol, connection_lost, ◌>>=◌, ◌>>◌, reject}
use tay.Text.{Text, Bytes, codes}
use tay.Value.{Value, dict, Fields, end, get}
use tay.Protocol.Codec.{Json, json_bytes}
use tay.Protocol.Envelope.{as_object}
use tay.Responses.{server_error_from_payload}

abbrev pub max_http_response_bytes : ℕ
max_http_response_bytes = 1048576

-- What `urllib` sends. `bearer` is the token of the Authorization header; the headers for the content
-- type are always the same.
pub record HttpRequest : Type 0 where
  pub method : Text
  pub path : Text
  pub body : Option Bytes
  pub bearer : Option Text

-- The response, an HTTPError with its code, or any other URLError, TimeoutError or OSError.
pub data Exchange : Type 0 where
  response http_error : ℕ → Bytes → Exchange
  failed : Exchange

-- What comes from outside: the codec, `json.loads` of bytes, `str` of a value, `urllib.parse.quote` and
-- `urlencode`, and the opener, over the state of the network.
pub record Listener (S : Type 0) : Type 0 where
  pub json : Json
  pub parse : Bytes → Option Value
  pub show : Value → Text
  pub quote : Text → Text
  pub urlencode : Fields → Text
  pub exchange : HttpRequest → S → Exchange × S

abbrev pub redirects : List ℕ
redirects = 301 ∷ 302 ∷ 303 ∷ 307 ∷ 308 ∷ []

-- `response.read(limit + 1)`, and the errors of the opener
unfoldable pub received : Exchange → Outcome (ℕ × Bytes)
received (response status body) = ok (status, take (suc max_http_response_bytes) body)
received (http_error code body) =
    if any (λ c. code == c) redirects
    then err protocol
    else ok (code, take (suc max_http_response_bytes) body)
received failed = err connection_lost

abbrev pub no_bytes : Bytes → Bool
no_bytes [] = true
no_bytes (b ∷ bs) = false

unfoldable pub parsed : Option Value → Outcome Value
parsed none = err protocol
parsed (some v) = ok v

abbrev pub is_success : ℕ → Bool
is_success status = leb 200 status && ltb status 300

module _ {S : Type 0} (listener : Listener S) where
  -- `isinstance(reply.get("error"), dict)`, then the status
  unfoldable pub check_reply : ℕ → Value → Fields → Outcome Fields
  check_reply status (dict error) reply = err (server_error_from_payload listener.show (dict error))
  check_reply status _ reply = do reject (not (is_success status)) protocol; ok reply

  unfoldable pub answer : ℕ → Bytes → Outcome Fields
  unfolding parsed as_object check_reply
  answer status raw = if status == 204 && no_bytes raw then ok end else do
    reject (ltb max_http_response_bytes (length raw)) protocol
    v ← parsed (listener.parse raw)
    reply ← as_object v
    check_reply status (get (codes "error") reply) reply

  abbrev pub answered : Outcome (ℕ × Bytes) → Outcome Fields
  answered (err e) = err e
  answered (ok (status, raw)) = answer status raw

  abbrev pub encoded : Option Fields → Outcome (Option Bytes)
  encoded none = ok none
  encoded (some fs) = do b ← json_bytes listener.json (dict fs); ok (some b)

  abbrev pub send : Text → Text → Option Text → Outcome (Option Bytes) → S → Outcome Fields × S
  send method path bearer (err e) s = (err e, s)
  send method path bearer (ok payload) s =
      let (x, s') =
        listener.exchange (record { method = method; path = path; body = payload; bearer = bearer })
          s in
      (answered (received x), s')

  -- `_request(method, path, body, headers=…)`
  unfoldable pub request : Text → Text → Option Fields → Option Text → S → Outcome Fields × S
  unfolding received answer
  request method path body bearer s = send method path bearer (encoded body) s
