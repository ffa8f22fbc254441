-- ===== src/Schedules/Pages.antt =====
-- `Scheduling.schedules` of clients/python/tay/schedules.py: the pages, one request after another.
-- `request` is the transport's hook `_schedule_request`, over the state of the transport.
pub mod Ends
use tay.Prelude.{
  ℕ, zero, suc, Bool, true, false, not, ◌&&◌, ◌||◌, Option, none, some, List, [], ◌∷◌,
  if◌then◌else◌,
}
use tay.Prelude.Outcome.{Outcome, ok, err, protocol}
use tay.Text.{Text, codes, is_empty, text_le}
use tay.Value.{Value, null, str, list, dict, Items, nil, cons, Fields, end, field, name, get}

abbrev pub is_dict : Value → Bool
is_dict (dict fs) = true
is_dict _ = false

unfoldable pub all_dicts : Items → Bool
all_dicts nil = true
all_dicts (cons v vs) = is_dict v && all_dicts vs

-- `collected.extend(schedules)`
unfoldable pub extend : Items → Items → Items
extend nil ws = ws
extend (cons v vs) ws = cons v (extend vs ws)

-- The list of a reply, if it is a list of dicts.
unfoldable pub page_of : Value → Outcome Items
unfolding all_dicts
page_of (list vs) = if all_dicts vs then ok vs else err protocol
page_of _ = err protocol

-- `cursor is not None and next_cursor <= cursor`
abbrev pub not_after : Text → Option Text → Bool
not_after t none = false
not_after t (some c) = text_le t c

-- What follows a page: the end, the next cursor, or a ProtocolError.
unfoldable pub next_of : Option Text → Value → Outcome (Option Text)
next_of cursor null = ok none
next_of cursor (str t) = if is_empty t || not_after t cursor then err protocol else ok (some t)
next_of cursor _ = err protocol

abbrev pub payload_of : Option Text → Fields
payload_of none = end
payload_of (some c) = field (name (codes "cursor")) (str c) end

module _ {S : Type 0} (request : Text → Fields → S → Outcome Fields × S) where
  -- One page: what was collected, and the next cursor.
  unfoldable pub page : Option Text → Items → Outcome Fields → Outcome (Items × Option Text)
  page cursor collected (err e) = err e
  page cursor collected (ok reply) = elim (page_of (get (codes "schedules") reply)) [
    | err e ↦ err e
    | ok vs ↦ elim (next_of cursor (get (codes "next_cursor") reply)) [
      | err e ↦ err e
      | ok next ↦ ok (extend collected vs, next)
    ]
  ]

  -- The `while` loop, on fuel; `none` means that the fuel ran out.
  unfoldable pub pages : ℕ → Option Text → Items → S → Option (Outcome Items × S)
  pages zero cursor collected s = none
  pages (suc fuel) cursor collected s =
      let (reply, s') = request (codes "schedules") (payload_of cursor) s in
      elim (page cursor collected reply) [
        | err e ↦ some (err e, s')
        | ok (vs, none) ↦ some (ok vs, s')
        | ok (vs, some t) ↦ pages fuel (some t) vs s'
      ]

  unfoldable pub schedules : ℕ → S → Option (Outcome Items × S)
  unfolding pages
  schedules fuel s = pages fuel none nil s
