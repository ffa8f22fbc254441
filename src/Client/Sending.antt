-- ===== src/Client/Sending.antt =====
-- Writing envelopes: `_send_envelope` and `_send_event` of clients/python/tay/client.py.
use tay.Prelude.{ℕ, ◌+◌, Bool, true, false, not, ◌||◌, Option, none, some, ◌∷◌, ◌==◌, if◌then◌else◌}
use tay.Prelude.Outcome.{Outcome, ok, err, connection_lost}
use tay.Text.{Text, codes}
use tay.Number.{pos}
use tay.Value.{int, str, dict, Fields, end, field, name, update}
use tay.Protocol.{normalize_json}
use tay.Protocol.Envelope.{as_object}
use tay.Protocol.Frame.{encode_frame}
use tay.Table.{add, discard}
use tay.Client.{World, Client, Action, ◌>>=◌, lift}

abbrev pub is_writer : ℕ → Option ℕ → Bool
is_writer w none = false
is_writer w (some v) = w == v

-- `self._writer if connection is None else connection`
abbrev pub chosen : Option ℕ → Option ℕ → Option ℕ
chosen writer none = writer
chosen writer (some w) = some w

-- `{"version": 1, "type": …, "request_id": …, **fields}`
unfoldable pub envelope_of : Text → Text → Fields → Fields
envelope_of message_type request_id fields =
    update
      (field (name (codes "version")) (int (pos 1)) (
        field (name (codes "type")) (str message_type)
          (field (name (codes "request_id")) (str request_id) end)))
      fields

module _ (world : World) where
  open world use {json, uuid, closing, writes}

  -- Under the write lock: the writer is looked at again before the frame goes out.
  unfoldable pub write_frame : ℕ → Fields → Action Unit
  write_frame w envelope c =
      if not (is_writer w c.writer) || closing w
      then (err connection_lost, c)
      else if writes w
      then (ok tt, record c { sent = (w, envelope) ∷ c.sent })
      else (err connection_lost, record c { lost = true })

  unfoldable pub send_on : Option ℕ → Fields → Action Unit
  send_on none envelope c = (err connection_lost, c)
  send_on (some w) envelope c =
      if closing w
      then (err connection_lost, c)
      else elim (encode_frame json c.max_frame_bytes (dict envelope)) [
        | err e ↦ (err e, c)
        | ok frame ↦ write_frame w envelope c
      ]

  unfoldable pub send_envelope : Fields → Option ℕ → Action Unit
  send_envelope envelope connection c = send_on (chosen c.writer connection) envelope c

  -- `uuid.uuid4().hex`
  unfoldable pub draw : Action Text
  draw c = (ok (uuid c.drawn), record c { drawn = c.drawn + 1 })

  -- `except Exception: self._event_request_ids.discard(request_id); raise`
  unfoldable pub or_forget : Text → Outcome (Unit {0}) → Action Unit
  or_forget id (ok u) c = (ok u, c)
  or_forget id (err e) c = (err e, record c { event_ids = discard id c.event_ids })

  unfoldable pub send_tracked : Text → Fields → Option ℕ → Action Unit
  send_tracked id envelope connection c =
      let c₁ : Client = record c { event_ids = add id c.event_ids } in
      let (r, c₂) = send_envelope envelope connection c₁ in or_forget id r c₂

  unfoldable pub send_event : Text → Fields → Option ℕ → Action Unit
  unfolding ◌>>=◌
  send_event message_type fields connection = do
    id ← draw
    v ← lift (normalize_json (dict fields))
    fs ← lift (as_object v)
    send_tracked id (envelope_of message_type id fs) connection
