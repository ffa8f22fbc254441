-- ===== src/Client/Requests.antt =====
-- Requests and their replies: `_exchange`, the replies of `_handle_message`, `_fail_pending` and the
-- end of `_read_loop` of clients/python/tay/client.py.
pub mod Invariant
use tay.Prelude.{
  ℕ, Bool, true, false, not, ◌&&◌, ◌||◌, Option, none, some, List, [], ◌∷◌, ◌++◌, if◌then◌else◌,
}
use tay.Prelude.Outcome.{Error, Outcome, ok, err, connection_lost, protocol}
use tay.Text.{Text, codes, mem, same}
use tay.Value.{Value, null, str, dict, Fields, get, get_or}
use tay.Protocol.{normalize_json}
use tay.Protocol.Envelope.{as_object}
use tay.Responses.{server_error_from_payload, is_one_of}
use tay.Table.{Table, find, set, add, discard}
use tay.Client.{World, Client, Action, ◌>>=◌, ◌>>◌, pure, raise, lift, modify, continue}
use tay.Client.Sending.{is_writer, draw, envelope_of, send_envelope}

-- `future.set_result` or `set_exception`, on a future that is not done
unfoldable pub settle : Text → Outcome Fields → Client → Client
settle id r c = record c { settled = set id r c.settled }

-- `future.done()`
unfoldable pub is_done : Text → Table (Outcome Fields) → Bool
is_done id settled = elim (find id settled) [ none ↦ false | some r ↦ true ]

-- Every waiting future of the list gets the error.
unfoldable pub fail_all : Error → List Text → Table (Outcome Fields) → Table (Outcome Fields)
unfolding is_done
fail_all e [] settled = settled
fail_all e (id ∷ ids) settled =
    fail_all e ids (if is_done id settled then settled else set id (err e) settled)

-- `_fail_pending(error)`
unfoldable pub fail_pending : Error → Client → Client
fail_pending e c = record c { pending = []; settled = fail_all e c.pending c.settled }

-- `self._pending[request_id] = future`, unless no socket is connected
unfoldable pub register_pending : Text → Action Unit
register_pending id c = elim c.writer [
  | none ↦ (err connection_lost, c)
  | some w ↦ (ok tt, record c { pending = add id c.pending })
]

-- The `finally` of `_exchange`: the request waits no longer. A future that is not done is
-- cancelled, and nobody holds it any more.
unfoldable pub unregister : Text → Client → Client
unregister id c = record c { pending = discard id c.pending }

abbrev pub sent_or_gone : Text → Outcome (Unit {0}) → Action Text
sent_or_gone id (ok u) c = (ok id, c)
sent_or_gone id (err e) c = (err e, unregister id c)

-- `drain` fails after it has waited: the frame is written, and the request waits no longer.
unfoldable pub drain_failed : Text → Client → Client
unfolding unregister
drain_failed id c = unregister id (record c { lost = true })

-- A reply to an event that this client sent.
unfoldable pub is_event_reply : Text → Fields → Client → Bool
is_event_reply id message c =
    is_one_of (get (codes "type") message) (codes "accepted" ∷ codes "heartbeat_ok" ∷ [])
    && mem id c.event_ids

module _ (world : World) where
  unfoldable pub send_request : Text → Fields → Action Text
  send_request id envelope c =
      let (r, c') = send_envelope world envelope none c in sent_or_gone id r c'

  -- `_exchange` up to the send: the request id and the envelope.
  unfoldable pub exchange_begin : Text → Fields → Action (Text × Fields)
  unfolding ◌>>=◌
  exchange_begin message_type fields = do
    id ← draw world
    v ← lift (normalize_json (dict fields))
    fs ← lift (as_object v)
    register_pending id
    pure (id, envelope_of message_type id fs)

  -- `_exchange` up to the wait for the reply, where the locks are free and nothing comes between: the
  -- request id.
  unfoldable pub exchange : Text → Fields → Action Text
  unfolding exchange_begin ◌>>=◌
  exchange message_type fields = do r ← exchange_begin message_type fields; send_request r.0 r.1

  -- The end of the wait: the reply, or a ConnectionLost after the timeout.
  unfoldable pub exchange_end : Text → Action Fields
  exchange_end id c = elim (find id c.settled) [
    | none ↦ (err connection_lost, unregister id c)
    | some r ↦ (r, unregister id c)
  ]

  -- The reply of the server to a pending request.
  unfoldable pub reply_of : Fields → Outcome Fields
  reply_of message =
      if is_one_of (get (codes "type") message) (codes "error" ∷ codes "protocol_error" ∷ [])
      then err
          (server_error_from_payload world.show (get_or (codes "error") (dict message) message))
      else ok message

  -- `_handle_message` for a message that carries a request id and is no command.
  unfoldable pub handle_reply : Text → Fields → Action Unit
  handle_reply id message c =
      if is_event_reply id message c
      then (ok tt, record c { event_ids = discard id c.event_ids })
      else if mem id c.pending && not (is_done id c.settled)
      then (ok tt, settle id (reply_of message) (unregister id c))
      else (err protocol, unregister id c)

-- The `finally` of `_read_loop` on connection `w`
unfoldable pub read_loop_end : ℕ → Client → Client
read_loop_end w c =
    if is_writer w c.writer
    then fail_pending connection_lost (record c { event_ids = []; connected = false; lost = true })
    else c
