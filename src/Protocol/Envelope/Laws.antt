-- ===== src/Protocol/Envelope/Laws.antt =====
-- What an accepted envelope is, and that sorting its keys keeps it accepted.
use tay.Prelude.{
  ℕ, ◌≤◌, ◌≡◌, refl, ap, sym, subst, ◌∙◌, ◌↔◌, Bool, true, false, some, arith, if◌then◌else◌,
  Option-cases, inl, inr,
}
use tay.Prelude.Outcome.{ok}
use tay.Text.{Text, codes, is_empty, utf8_size}
use tay.Value.{Value, null, bool, int, float, str, dict, Fields, get, is_none}
use tay.Protocol.Safe.{normalize_json_exact, depth, widest, is_json}
use tay.Protocol.Codec.{sorted, sorted_fields}
use tay.Protocol.Codec.Sorted.{depth-sorted, widest-sorted, json-sorted, lookup-sorted}
use tay.Protocol.Envelope.{is_version, version_of, check_header, validate_envelope}

-- A text that is not empty and has a UTF-8 form of at most `limit` bytes.
abbrev pub IsHeader : ℕ → Value → Type 0
IsHeader limit v =
    (t : Text) × (v ≡ str t) × (is_empty t ≡ false) × (n : ℕ) × (utf8_size t ≡ some n) × (n ≤ limit)

-- Version 1 (or, incoming, `v` in the absence of `version`), a type of at most 64 and a request id of
-- at most 128 UTF-8 bytes, in a value that JSON can hold within the limits.
pub record IsEnvelope (incoming : Bool) (fs : Fields) : Type 0 where
  pub shallow : depth (dict fs) ≤ 32
  pub narrow : widest (dict fs) ≤ 10000
  pub json : is_json (dict fs) ≡ true
  pub version : is_version (version_of incoming fs) ≡ true
  pub message_type : IsHeader 64 (get (codes "type") fs)
  pub request_id : IsHeader 128 (get (codes "request_id") fs)

check_header-IsHeader :
    (limit : ℕ) (v : Value) {u : Unit} → check_header limit v ≡ ok u → IsHeader limit v
unfolding check_header
check_header-IsHeader limit (str t) h = elim (Option-cases (utf8_size t)) [
  | inl e ↦ absurd (ground arith)
  | inr (n, e) ↦ (t, refl, ground arith, n, e, ground arith)
]
check_header-IsHeader limit null h = cc
check_header-IsHeader limit _ h = cc

IsHeader-check_header : (limit : ℕ) (v : Value) → IsHeader limit v → check_header limit v ≡ ok tt
unfolding check_header
IsHeader-check_header limit v (t, e, full, n, size, fits) = ground arith

module _ (incoming : Bool) where
  IsEnvelope-validate :
      (fs : Fields) → IsEnvelope incoming fs → validate_envelope incoming (dict fs) ≡ ok fs
  unfolding validate_envelope
  IsEnvelope-validate fs h = ground (
    arith,
    normalize_json_exact (dict fs),
    IsHeader-check_header 64 _ h.message_type,
    IsHeader-check_header 128 _ h.request_id,
  )

  -- The checks that an accepted envelope has passed.
  passed :
      (gs fs : Fields)
      → validate_envelope incoming (dict gs) ≡ ok fs
      → (gs ≡ fs)
        × (depth (dict gs) ≤ 32)
        × (widest (dict gs) ≤ 10000)
        × (is_json (dict gs) ≡ true)
        × (is_version (version_of incoming gs) ≡ true)
        × (check_header 64 (get (codes "type") gs) ≡ ok tt)
        × (check_header 128 (get (codes "request_id") gs) ≡ ok tt)
  unfolding validate_envelope
  passed gs fs h = ground (arith, normalize_json_exact (dict gs))

  validate-IsEnvelope_at :
      (gs fs : Fields)
      → validate_envelope incoming (dict gs) ≡ ok fs
      → (dict gs ≡ dict fs) × IsEnvelope incoming gs
  validate-IsEnvelope_at gs fs h =
      let (e, shallow, narrow, json, version, kind, id) = passed gs fs h in
      (
        ap dict e,
        record {
          shallow = shallow;
          narrow = narrow;
          json = json;
          version = version;
          message_type = check_header-IsHeader 64 _ kind;
          request_id = check_header-IsHeader 128 _ id;
        },
      )

  validate-IsEnvelope :
      (v : Value) (fs : Fields)
      → validate_envelope incoming v ≡ ok fs
      → (v ≡ dict fs) × IsEnvelope incoming fs
  unfolding validate_envelope
  validate-IsEnvelope (dict gs) fs h =
      let (e, p) = validate-IsEnvelope_at gs fs h in
      (e, subst (IsEnvelope incoming) (passed gs fs h).0 p)
  validate-IsEnvelope null fs h = absurd (ground (arith, normalize_json_exact null))
  validate-IsEnvelope v fs h = absurd (ground (arith, normalize_json_exact v))

  -- `validate_envelope` returns a dict exactly when it was given that dict and the dict is an
  -- envelope: it lies within the JSON limits, its version equals 1, and its type and request id are
  -- non-empty texts of at most 64 and 128 UTF-8 bytes.
  pub validate_envelope_exact :
      (v : Value) (fs : Fields)
      → (validate_envelope incoming v ≡ ok fs) ↔ ((v ≡ dict fs) × IsEnvelope incoming fs)
  validate_envelope_exact v fs =
      (validate-IsEnvelope v fs, λ h. rw h.0 (IsEnvelope-validate fs h.1))

is_version-sorted : (v : Value) → is_version (sorted v) ≡ is_version v
unfolding is_version sorted
is_version-sorted null = refl
is_version-sorted _ = refl

get-sorted : (t : Text) (fs : Fields) → get t (sorted_fields fs) ≡ sorted (get t fs)
unfolding get sorted
get-sorted t fs = ground (arith, lookup-sorted t fs)

IsHeader-sorted :
    (limit : ℕ) (t : Text) (fs : Fields)
    → IsHeader limit (get t fs)
    → IsHeader limit (get t (sorted_fields fs))
unfolding sorted
IsHeader-sorted limit t fs (s, e, full, n, size, fits) =
    (s, get-sorted t fs ∙ ap sorted e, full, n, size, fits)

has_version :
    (v d : Value)
    → is_version v ≡ true
    → is_version (if is_none (sorted v) then d else sorted v) ≡ true
unfolding is_version sorted
has_version null d h = cc
has_version (bool b) d h = h
has_version (int z) d h = h
has_version (float x) d h = h
has_version _ d h = cc

-- An outgoing envelope, with its keys sorted, is an incoming one.
pub sorted-IsEnvelope : (fs : Fields) → IsEnvelope false fs → IsEnvelope true (sorted_fields fs)
unfolding sorted version_of
sorted-IsEnvelope fs h = record {
  shallow = omega (arith, depth-sorted (dict fs), h.shallow);
  narrow = omega (arith, widest-sorted (dict fs), h.narrow);
  json = json-sorted (dict fs) ∙ h.json;
  version =
      subst (λ v. is_version (if is_none v then get (codes "v") (sorted_fields fs) else v) ≡ true)
        (sym (get-sorted (codes "version") fs))
        (has_version (get (codes "version") fs) _ h.version);
  message_type = IsHeader-sorted 64 _ fs h.message_type;
  request_id = IsHeader-sorted 128 _ fs h.request_id;
}
