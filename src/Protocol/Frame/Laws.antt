-- ===== src/Protocol/Frame/Laws.antt =====
-- A frame that was written reads back, with whatever follows it on the stream.
use tay.Prelude.{
  ℕ, ◌≤◌, ◌<◌, ◌≡◌, refl, subst, true, false, some, [], ◌∷◌, ◌++◌, arith, length, length-append,
  take-append, drop-append, Option-cases, inl, inr, ◌/◌, ◌%◌,
}
use tay.Prelude.Outcome.{ok, Outcome-cases}
use tay.Text.{Bytes}
use tay.Value.{Value, dict, Fields}
use tay.Protocol.Codec.{Json, ReadsBack, sorted, sorted_fields}
use tay.Protocol.Codec.Duplicates.{distinct, hooked_exact}
use tay.Protocol.Codec.Sorted.{distinct-sorted}
use tay.Protocol.Envelope.{validate_envelope}
use tay.Protocol.Envelope.Laws.{IsEnvelope, validate_envelope_exact, sorted-IsEnvelope}
use tay.Protocol.Frame.{unpack, readexactly, encode_frame, decode_payload, read_frame}

abbrev word : ℕ → Bytes
word n = n / 0x1000000 ∷ n / 0x10000 % 256 ∷ n / 256 % 256 ∷ n % 256 ∷ []

-- The four bytes of a length give it back.
unpack-word : (n : ℕ) → n < 0x100000000 → unpack (word n) ≡ n
unfolding unpack
unpack-word n h = omega arith

readexactly-append :
    (xs ys : Bytes) (n : ℕ) → length xs ≡ n → readexactly n (xs ++ ys) ≡ ok (xs, ys)
unfolding readexactly
readexactly-append xs ys n e =
    subst (λ k. readexactly k (xs ++ ys) ≡ ok (xs, ys)) e
      (ground (arith, length-append xs ys, take-append xs ys, drop-append xs ys))

module _ (json : Json) (max : ℕ) where
  -- What a successful `encode_frame` has done.
  encoded :
      (v : Value) (frame : Bytes)
      → encode_frame json max v ≡ ok frame
      → (fs : Fields) × (payload : Bytes) × (validate_envelope false v ≡ ok fs)
        × (json.dumps (dict fs) ≡ some payload)
        × (0 < length payload)
        × (length payload ≤ max)
        × (length payload < 0x100000000)
        × (frame ≡ word (length payload) ++ payload)
  unfolding encode_frame
  encoded v frame h = elim (Outcome-cases (validate_envelope false v)) [
    | inr (e, p) ↦ absurd (ground arith)
    | inl (fs, p) ↦ elim (Option-cases (json.dumps (dict fs))) [
      | inl q ↦ absurd (ground arith)
      | inr (payload, q) ↦
          (fs, payload, p, q, ground arith, ground arith, ground arith, ground arith)
    ]
  ]

  decode_sorted :
      (reads : ReadsBack json) (fs : Fields) (payload : Bytes)
      → IsEnvelope false fs
      → distinct (dict fs) ≡ true
      → json.dumps (dict fs) ≡ some payload
      → 0 < length payload
      → length payload ≤ max
      → decode_payload json max payload ≡ ok (sorted_fields fs)
  unfolding decode_payload sorted
  decode_sorted reads fs payload env d e full fits = ground (
    arith,
    reads.loads-dumps (dict fs) payload env.json e,
    hooked_exact (sorted (dict fs)),
    distinct-sorted (dict fs),
    (validate_envelope_exact true (dict (sorted_fields fs)) (sorted_fields fs)).1
        (refl, sorted-IsEnvelope fs env),
  )

  read_word :
      (payload rest : Bytes) (gs : Fields)
      → 0 < length payload
      → length payload ≤ max
      → length payload < 0x100000000
      → decode_payload json max payload ≡ ok gs
      → read_frame json max ((word (length payload) ++ payload) ++ rest) ≡ ok (gs, rest)
  unfolding read_frame
  read_word payload rest gs full fits small d = ground (
    arith,
    readexactly-append (word (length payload)) (payload ++ rest) 4 refl,
    unpack-word (length payload) small,
    readexactly-append payload rest (length payload) refl,
  )

  -- Reading a frame that `encode_frame` wrote, with any bytes behind it, gives the same envelope with
  -- its keys in order and leaves exactly those bytes. The keys of each dict in it are distinct, as in
  -- every Python dict, and `json.loads` reads back what `json.dumps` wrote.
  pub read_frame-encode_frame :
      (reads : ReadsBack json) (fs : Fields) (frame rest : Bytes)
      → distinct (dict fs) ≡ true
      → encode_frame json max (dict fs) ≡ ok frame
      → read_frame json max (frame ++ rest) ≡ ok (sorted_fields fs, rest)
  read_frame-encode_frame reads fs frame rest d h =
      let (gs, payload, valid, e, full, fits, small, shape) = encoded (dict fs) frame h in
      let (same_dict, env) = (validate_envelope_exact false (dict fs) gs).0 valid in
      let p : gs ≡ fs = cc in
      rw shape (
        read_word payload rest (sorted_fields fs) full fits small (
          decode_sorted reads fs payload (subst (IsEnvelope false) p env) d
            (subst (λ xs. json.dumps (dict xs) ≡ some payload) p e) full fits))
