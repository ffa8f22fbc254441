-- ===== src/Execution.antt =====
-- clients/python/tay/execution.py: the limits on the results and errors of a task.
-- An exception is the text of its class name, of `str(exc)` (`none` if that raises) and of its
-- formatted traceback (`none` if the formatting raises).
pub mod Bounded
pub mod Runs
use tay.Prelude.{
  ℕ, zero, suc, ◌+◌, ◌-◌, ◌/◌, ◌≡◌, Bool, true, false, not, ◌&&◌, Option, none, some, List, [], ◌∷◌,
  ◌++◌, leb, ltb, map, max, length, take, if◌then◌else◌,
}
use tay.Prelude.Outcome.{Outcome, ok, err, validation, runtime_error, ◌>>=◌, ◌>>◌, reject}
use tay.Text.{Text, Bytes, codes, is_empty, is_surrogate}
use tay.Value.{Value, dict, str, Fields, end, field, name}
use tay.Protocol.Codec.{Json, json_bytes}

pub record Raised : Type 0 where
  pub class_name : Text
  pub message : Option Text
  pub formatted : Option Text

-- The dict of an error: its texts in the order in which they are inserted.
pub record ErrorFields : Type 0 where
  pub kind : Text
  pub message : Text
  pub traceback : Option Text

unfoldable pub to_fields : ErrorFields → Fields
to_fields e = field (name (codes "type")) (str e.kind) (
    field (name (codes "message")) (str e.message)
      (elim e.traceback [ none ↦ end | some t ↦ field (name (codes "traceback")) (str t) end ]))

-- `_safe_text`: what has no UTF-8 form becomes a question mark.
unfoldable pub safe_char : ℕ → ℕ
safe_char c = if is_surrogate c then b'?' else c

unfoldable pub safe_text : Text → Text
unfolding safe_char
safe_text t = map safe_char t

-- `_truncate_text`; 8230 is the ellipsis.
unfoldable pub truncate_text : Text → Text
truncate_text t = if leb (length t) 2 then [] else take (max 1 (length t / 2 - 1)) t ++ 8230 ∷ []

-- `text[:limit]`, where None is no limit
unfoldable pub sliced : Option ℕ → Text → Text
sliced none t = t
sliced (some n) t = take n t

unfoldable pub message_of : Option Text → Text
message_of none = codes "<exception message unavailable>"
message_of (some t) = t

unfoldable pub error_details : Raised → Bool → Option ℕ → Option ℕ → ErrorFields
unfolding safe_text sliced message_of
error_details exc fallback_message max_type max_message =
    let text = safe_text (message_of exc.message) in
    let message = if fallback_message && is_empty text then safe_text exc.class_name else text in
    record {
      kind = sliced max_type (safe_text exc.class_name);
      message = sliced max_message message;
      traceback = none;
    }

unfoldable pub traceback_of : Option Text → Text
unfolding safe_text
traceback_of none = codes "<traceback unavailable>"
traceback_of (some t) = safe_text t

abbrev pub present : Option Text → Bool
present none = false
present (some t) = not (is_empty t)

abbrev shorter : Option Text → Option Text
shorter none = none
shorter (some t) = some (truncate_text t)

-- One round of the `for` loop: the first of traceback, message and type that is not empty.
unfoldable pub shrink : ErrorFields → Option ErrorFields
shrink e =
    if present e.traceback
    then some (record e { traceback = shorter e.traceback })
    else if not (is_empty e.message)
    then some (record e { message = truncate_text e.message })
    else if not (is_empty e.kind)
    then some (record e { kind = truncate_text e.kind })
    else none

abbrev text_size : Option Text → ℕ
text_size none = 0
text_size (some t) = length t

unfoldable pub total : ErrorFields → ℕ
total e = length e.kind + length e.message + text_size e.traceback

module _ (json : Json) where
  -- The `while` loop, on fuel: the total length of the texts bounds its rounds.
  unfoldable pub shrink_to : ℕ → ℕ → ErrorFields → Outcome Fields
  shrink_to zero max_bytes e = err runtime_error
  shrink_to (suc fuel) max_bytes e = do
    b ← json_bytes json (dict (to_fields e))
    if leb (length b) max_bytes
        then ok (to_fields e)
        else elim (shrink e) [ none ↦ ok end | some e' ↦ shrink_to fuel max_bytes e' ]

  unfoldable pub bounded_error : Raised → ℕ → Bool → Outcome Fields
  bounded_error exc max_bytes include_traceback = do
    reject (ltb max_bytes 2) validation
    let details = error_details exc true none none
    let error =
        if include_traceback
        then record details { traceback = some (traceback_of exc.formatted) }
        else details
    shrink_to (suc (total error)) max_bytes error
