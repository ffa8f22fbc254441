-- ===== src/Protocol/Frame/Bounds.antt =====
-- What `read_frame` takes off a stream, and what it lets through.
use tay.Prelude.{
  ℕ, ◌+◌, ◌≤◌, ◌<◌, ◌≡◌, subst, true, arith, leb, length, length-drop, drop, Bool-cases, inl, inr,
}
use tay.Prelude.Outcome.{ok, Outcome-cases}
use tay.Text.{Bytes}
use tay.Value.{dict, Fields}
use tay.Protocol.Codec.{Json}
use tay.Protocol.Envelope.{as_object}
use tay.Protocol.Envelope.Laws.{IsEnvelope, validate_envelope_exact}
use tay.Protocol.Frame.{unpack, readexactly, parse_payload, decode_payload, read_frame}

readexactly-length : (n : ℕ) (s a b : Bytes) → readexactly n s ≡ ok (a, b) → length s ≡ n + length b
unfolding readexactly
readexactly-length n s a b h = elim (Bool-cases (leb n (length s))) [
  | inl e ↦
      let p : drop n s ≡ b = ground arith in
      subst (λ r. length s ≡ n + length r) p (ground (arith, length-drop n s))
  | inr e ↦ absurd (ground arith)
]

module _ (json : Json) (max : ℕ) where
  decode_payload-IsEnvelope :
      (payload : Bytes) (fs : Fields) → decode_payload json max payload ≡ ok fs → IsEnvelope true fs
  unfolding decode_payload
  decode_payload-IsEnvelope payload fs h =
      elim (Outcome-cases (parse_payload json (json.loads payload))) [
        | inr (e, p) ↦ absurd (ground arith)
        | inl (v, p) ↦ elim (Outcome-cases (as_object v)) [
          | inr (e, q) ↦ absurd (ground arith)
          | inl (gs, q) ↦ ((validate_envelope_exact true (dict gs) fs).0 (ground arith)).1
        ]
      ]

  -- A frame that `read_frame` accepts took four bytes and a payload of at least one and at most
  -- `max_frame_bytes` bytes off the stream, nothing more, and held an envelope.
  pub read_frame_bounds :
      (stream : Bytes) (fs : Fields) (rest : Bytes)
      → read_frame json max stream ≡ ok (fs, rest)
      → (n : ℕ) × (0 < n) × (n ≤ max) × (length stream ≡ 4 + n + length rest) × IsEnvelope true fs
  unfolding read_frame
  read_frame_bounds stream fs rest h = elim (Outcome-cases (readexactly 4 stream)) [
    | inr (e, p) ↦ absurd (ground arith)
    | inl ((header, body), p) ↦ elim (Outcome-cases (readexactly (unpack header) body)) [
      | inr (e, q) ↦ absurd (ground arith)
      | inl ((payload, left), q) ↦ elim (Outcome-cases (decode_payload json max payload)) [
        | inr (e, r) ↦ absurd (ground arith)
        | inl (gs, r) ↦
            let s : gs ≡ fs = ground arith in
            let l : left ≡ rest = ground arith in
            (
              unpack header,
              ground arith,
              ground arith,
              ground (
                arith,
                readexactly-length 4 stream header body p,
                readexactly-length (unpack header) body payload left q,
              ),
              subst (IsEnvelope true) s (decode_payload-IsEnvelope payload gs r),
            )
      ]
    ]
  ]
