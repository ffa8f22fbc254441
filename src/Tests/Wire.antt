-- ===== src/Tests/Wire.antt =====
-- Frames, envelopes and errors at concrete inputs, over codecs that know a few documents.
use tay.Prelude.{
  ℕ, ◌+◌, ◌≤◌, ◌<◌, ◌≡◌, ◌↔◌, refl, ap, sym, Bool, true, false, ◌&&◌, Option, none, some, [], ◌∷◌,
  ◌++◌, arith, leb, ◌==◌, length, if◌then◌else◌,
}
use tay.Prelude.Outcome.{ok, err, validation, protocol, result_too_large}
use tay.Text.{Text, Bytes, codes, same, utf8_size}
use tay.Text.Laws.{same_iff}
use tay.Number.{pos, nan}
use tay.Value.{
  Value, null, int, float, str, list, dict, nil, cons, Fields, end, field, name, get, put,
  count_fields,
}
use tay.Protocol.{normalize_json}
use tay.Protocol.Safe.{depth, widest, is_json, normalize_json_exact}
use tay.Protocol.Codec.{Json, ReadsBack, sorted, sorted_fields, hooked}
use tay.Protocol.Codec.Duplicates.{distinct, unique, has_key, hooked_exact}
use tay.Protocol.Envelope.{validate_envelope}
use tay.Protocol.Envelope.Laws.{IsEnvelope, validate_envelope_exact}
use tay.Protocol.Frame.{encode_frame, read_frame}
use tay.Protocol.Frame.Laws.{read_frame-encode_frame}
use tay.Protocol.Frame.Bounds.{read_frame_bounds}
use tay.Execution.{Raised, bounded_error}
use tay.Execution.Bounded.{WritesTexts, FitsIn, bounded_error-FitsIn}
use tay.Execution.Runs.{run_task, run_task-fits}

abbrev ping : Fields
ping = field (name (codes "version")) (int (pos 1)) (
    field (name (codes "type")) (str (codes "ping"))
      (field (name (codes "request_id")) (str (codes "r")) end))

abbrev is_ping : Text → ℕ → Text → Text → Text → Text → Bool
is_ping k n l t m r =
    same k (codes "version")
    && (n == 1
        && (same l (codes "type")
            && (same t (codes "ping") && (same m (codes "request_id") && same r (codes "r")))))

-- A codec that writes one document, in two bytes.
ping_dumps : Value → Option Bytes
ping_dumps
      (dict (field (name k) (int (pos n)) (field (name l) (str t) (field (name m) (str r) end)))) =
    if is_ping k n l t m r then some (b'{' ∷ b'}' ∷ []) else none
ping_dumps _ = none

abbrev ping_codec : Json
ping_codec = record { dumps = ping_dumps; loads = λ b. some (sorted (dict ping)) }

ping_reads : (v : Value) (b : Bytes) → ping_dumps v ≡ some b → v ≡ dict ping
unfolding ping_dumps
ping_reads
      (dict (field (name k) (int (pos n)) (field (name l) (str t) (field (name m) (str r) end)))) b
      h =
    ground (
      arith,
      same_iff k (codes "version"),
      same_iff l (codes "type"),
      same_iff t (codes "ping"),
      same_iff m (codes "request_id"),
      same_iff r (codes "r"),
    )
ping_reads _ b h = cc

ping_codec-ReadsBack : ReadsBack ping_codec
ping_codec-ReadsBack = record {
  loads-dumps = λ v b j h. ap (λ w. some (sorted w)) (sym (ping_reads v b h));
}

abbrev ping_frame : Bytes
ping_frame = 0 ∷ 0 ∷ 0 ∷ 2 ∷ b'{' ∷ b'}' ∷ []

encode_ping : encode_frame ping_codec 256 (dict ping) ≡ ok ping_frame
unfolding encode_frame validate_envelope normalize_json count_fields get same utf8_size ping_dumps
encode_ping = refl

distinct_ping : distinct (dict ping) ≡ true
unfolding distinct unique has_key same
distinct_ping = refl

read_frame-encode_frame_example :
    read_frame ping_codec 256 (ping_frame ++ 7 ∷ []) ≡ ok (sorted_fields ping, 7 ∷ [])
read_frame-encode_frame_example =
    read_frame-encode_frame ping_codec 256 ping_codec-ReadsBack ping ping_frame (7 ∷ [])
      distinct_ping encode_ping

read_frame_bounds_example :
    (n : ℕ) × (0 < n) × (n ≤ 256) × (7 ≡ 4 + n + 1) × IsEnvelope true (sorted_fields ping)
read_frame_bounds_example =
    read_frame_bounds ping_codec 256 (ping_frame ++ 7 ∷ []) (sorted_fields ping) (7 ∷ [])
      read_frame-encode_frame_example

abbrev nested : Value
nested = dict (field (name (codes "a")) (list (cons (int (pos 3)) (cons (float nan) nil))) end)

normalize_json_exact_example : normalize_json nested ≡ (
    if leb (depth nested) 32 && (leb (widest nested) 10000 && is_json nested)
    then ok nested
    else err validation)
normalize_json_exact_example = normalize_json_exact nested

abbrev repeated : Value
repeated =
    list (cons (dict (field (name (codes "a")) null (field (name (codes "a")) null end))) nil)

hooked_exact_example : hooked repeated ≡ (if distinct repeated then ok repeated else err protocol)
hooked_exact_example = hooked_exact repeated

hooked-repeated : hooked repeated ≡ err protocol
unfolding hooked distinct unique has_key same put
hooked-repeated = refl

validate_envelope_exact_example :
    (validate_envelope false (dict ping) ≡ ok ping)
    ↔ ((dict ping ≡ dict ping) × IsEnvelope false ping)
validate_envelope_exact_example = validate_envelope_exact false (dict ping) ping

-- A codec that writes everything in two bytes.
abbrev short_codec : Json
short_codec = record { dumps = λ v. some (b'{' ∷ b'}' ∷ []); loads = λ b. none }

short_codec-WritesTexts : WritesTexts short_codec
short_codec-WritesTexts = record { empty = refl; texts = λ e c. (b'{' ∷ b'}' ∷ [], refl) }

abbrev boom : Raised
boom = record { class_name = codes "ValueError"; message = none; formatted = some (codes "line") }

bounded_error-FitsIn_example :
    FitsIn short_codec short_codec-WritesTexts 2 (bounded_error short_codec boom 2 true)
bounded_error-FitsIn_example =
    bounded_error-FitsIn short_codec short_codec-WritesTexts boom 2 true (omega arith)

run_three : run_task short_codec (ok (int (pos 3))) 2 result_too_large ≡ ok (int (pos 3))
unfolding run_task normalize_json
run_three = refl

run_task-fits_example :
    (ok (int (pos 3)) ≡ ok (int (pos 3)))
    × (is_json (int (pos 3)) ≡ true)
    × (b : Bytes) × (short_codec.dumps (int (pos 3)) ≡ some b)
    × (length b ≤ 2)
run_task-fits_example =
    run_task-fits short_codec (ok (int (pos 3))) 2 result_too_large (int (pos 3)) run_three
