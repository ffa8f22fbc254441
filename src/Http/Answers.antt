-- ===== src/Http/Answers.antt =====
-- Which answers of the listener are replies, and which errors the others become.
use tay.Prelude.{
  ℕ, ◌≤◌, ◌<◌, ◌≡◌, ◌↔◌, ◌⊎◌, refl, Bool, true, false, ◌&&◌, some, arith, Bool-cases, Option-cases,
  inl, inr, length, ◌==◌, ltb,
}
use tay.Prelude.Outcome.{Error, ok, err, protocol}
use tay.Text.{Bytes, codes}
use tay.Value.{Value, null, dict, Fields, end, get}
use tay.Responses.{server_error_from_fields, server_error_from_payload}
use tay.Http.{Listener, answer, check_reply, no_bytes, max_http_response_bytes, is_success}

-- The reply holds no error object.
abbrev pub no_error : Value → Bool
no_error (dict fs) = false
no_error v = true

module _ {S : Type 0} (listener : Listener S) (status : ℕ) (raw : Bytes) where
  -- A body of at most 1048576 bytes, which is the JSON object `fs`.
  pub record IsObject (fs : Fields) : Type 0 where
    pub fits : length raw ≤ max_http_response_bytes
    pub object : listener.parse raw ≡ some (dict fs)

  check_reply_lem :
      (v : Value) (fs gs : Fields)
      → (check_reply listener status v fs ≡ ok gs)
        ↔ ((no_error v ≡ true) × (is_success status ≡ true) × (fs ≡ gs))
  unfolding check_reply
  check_reply_lem (dict e) fs gs = (λ h. cc, λ h. cc)
  check_reply_lem null fs gs = ground arith
  check_reply_lem _ fs gs = ground arith

  -- The two ways to a reply.
  abbrev pub IsReply : Fields → Type 0
  IsReply fs =
      ((status ≡ 204) × (no_bytes raw ≡ true) × (fs ≡ end))
      ⊎ (((status == 204 && no_bytes raw) ≡ false)
          × (200 ≤ status)
          × (status < 300)
          × IsObject fs
          × (no_error (get (codes "error") fs) ≡ true))

  parsed-IsReply :
      (v : Value) (fs : Fields)
      → (status == 204 && no_bytes raw) ≡ false
      → listener.parse raw ≡ some v
      → answer listener status raw ≡ ok fs
      → IsReply fs
  unfolding answer
  parsed-IsReply (dict gs) fs n p h =
      let k : check_reply listener status (get (codes "error") gs) gs ≡ ok fs = ground arith in
      let (a, b, e) = (check_reply_lem (get (codes "error") gs) gs fs).0 k in
      inr (n, ground arith, ground arith, record { fits = ground arith; object = cc }, cc)
  parsed-IsReply null fs n p h = absurd (ground arith)
  parsed-IsReply _ fs n p h = absurd (ground arith)

  answer-IsReply : (fs : Fields) → answer listener status raw ≡ ok fs → IsReply fs
  unfolding answer
  answer-IsReply fs h = elim (Bool-cases (status == 204 && no_bytes raw)) [
    | inl e ↦ inl (ground arith, ground arith, ground arith)
    | inr n ↦ elim (Option-cases (listener.parse raw)) [
      | inl p ↦ absurd (ground arith)
      | inr (v, p) ↦ parsed-IsReply v fs n p h
    ]
  ]

  IsReply-answer : (fs : Fields) → IsReply fs → answer listener status raw ≡ ok fs
  unfolding answer
  IsReply-answer fs (inl (s, b, e)) = ground arith
  IsReply-answer fs (inr (n, lo, hi, o, e)) =
      let k = (check_reply_lem (get (codes "error") fs) fs fs).1 (e, ground arith, refl) in
      ground (arith, o.fits, o.object, k)

  -- An answer becomes a reply exactly when it is a 204 without a body, which is the empty reply, or
  -- has a status from 200 to 299 and a body of at most 1048576 bytes that is a JSON object without an
  -- error object, which is the reply.
  pub answer_exact : (fs : Fields) → (answer listener status raw ≡ ok fs) ↔ IsReply fs
  answer_exact fs = (answer-IsReply fs, IsReply-answer fs)

  -- A ProtocolError, or the error that the error object of the body describes.
  abbrev pub IsFault : Error → Type 0
  IsFault e =
      (e ≡ protocol)
      ⊎ ((reply error : Fields) × (listener.parse raw ≡ some (dict reply))
          × (get (codes "error") reply ≡ dict error)
          × (e ≡ server_error_from_fields listener.show error))

  check_reply_error :
      (v : Value) (fs : Fields) (e : Error)
      → check_reply listener status v fs ≡ err e
      → (e ≡ protocol)
        ⊎ ((error : Fields) × (v ≡ dict error) × (e ≡ server_error_from_fields listener.show error))
  unfolding check_reply server_error_from_payload
  check_reply_error (dict error) fs e h = inr (error, refl, ground arith)
  check_reply_error null fs e h = inl (ground arith)
  check_reply_error _ fs e h = inl (ground arith)

  parsed_error :
      (v : Value) (e : Error)
      → (status == 204 && no_bytes raw) ≡ false
      → listener.parse raw ≡ some v
      → answer listener status raw ≡ err e
      → IsFault e
  unfolding answer
  parsed_error (dict gs) e n p h = elim (Bool-cases (ltb max_http_response_bytes (length raw))) [
    | inl t ↦ inl (ground arith)
    | inr t ↦ elim (check_reply_error (get (codes "error") gs) gs e (ground arith)) [
      | inl q ↦ inl q
      | inr (error, g, q) ↦ inr (gs, error, p, g, q)
    ]
  ]
  parsed_error null e n p h = inl (ground arith)
  parsed_error _ e n p h = inl (ground arith)

  -- An answer that is no reply is a ProtocolError, or the error that the error object of its body
  -- describes.
  pub answer_errors : (e : Error) → answer listener status raw ≡ err e → IsFault e
  unfolding answer
  answer_errors e h = elim (Bool-cases (status == 204 && no_bytes raw)) [
    | inl t ↦ absurd (ground arith)
    | inr n ↦ elim (Option-cases (listener.parse raw)) [
      | inl p ↦ inl (ground arith)
      | inr (v, p) ↦ parsed_error v e n p h
    ]
  ]
