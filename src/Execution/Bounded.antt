-- ===== src/Execution/Bounded.antt =====
-- `bounded_error` ends, and what it returns fits the limit.
use tay.Prelude.{
  Option-cases, max, ◌/◌, ◌-◌, ℕ, zero, suc, ◌≤◌, ◌<◌, ◌≡◌, refl, Bool, true, false, not, Option,
  none, some, [], ◌∷◌, ◌++◌, arith, leb, all, length, take, length-append, length-take-le,
  Bool-cases, inl, inr,
}
use tay.Prelude.Outcome.{Outcome, ok}
use tay.Text.{Text, Bytes, is_surrogate, is_empty}
use tay.Value.{dict, Fields, end}
use tay.Protocol.Codec.{Json, json_bytes}
use tay.Execution.{
  Raised, ErrorFields, to_fields, safe_text, truncate_text, message_of, traceback_of, error_details,
  shrink, shorter, present, text_size, total, shrink_to, bounded_error, sliced,
}

-- Every code point has a UTF-8 form.
abbrev clean : Text → Bool
clean = all (λ c. not (is_surrogate c))

abbrev clean? : Option Text → Bool
clean? none = true
clean? (some t) = clean t

abbrev pub IsClean : ErrorFields → Type 0
IsClean e = (clean e.kind ≡ true) × (clean e.message ≡ true) × (clean? e.traceback ≡ true)

-- `json.dumps` writes every dict of texts that have UTF-8 forms, and the empty dict as `{}`.
pub record WritesTexts (json : Json) : Type 0 where
  pub empty : json.dumps (dict end) ≡ some (b'{' ∷ b'}' ∷ [])
  pub texts :
      (e : ErrorFields) → IsClean e → (b : Bytes) × (json.dumps (dict (to_fields e)) ≡ some b)

clean-safe_text : (t : Text) → clean (safe_text t) ≡ true
unfolding safe_text is_surrogate
clean-safe_text [] = refl
clean-safe_text (c ∷ t) = ground (arith, clean-safe_text t)

clean-take : (n : ℕ) (t : Text) → clean t ≡ true → clean (take n t) ≡ true
clean-take zero t h = refl
clean-take (suc n) [] h = refl
clean-take (suc n) (c ∷ t) h = ground (arith, clean-take n t)

clean-append : (s t : Text) → clean s ≡ true → clean t ≡ true → clean (s ++ t) ≡ true
clean-append [] t h k = k
clean-append (c ∷ s) t h k = ground (arith, clean-append s t)

clean-truncate_text : (t : Text) → clean t ≡ true → clean (truncate_text t) ≡ true
unfolding truncate_text is_surrogate
clean-truncate_text t h = ground (
  arith,
  clean-append (take (max 1 (length t / 2 - 1)) t) (8230 ∷ []),
  clean-take (max 1 (length t / 2 - 1)) t,
)

-- Truncating a text that is not empty shortens it.
truncate_text_shorter : (t : Text) → is_empty t ≡ false → length (truncate_text t) < length t
unfolding truncate_text
truncate_text_shorter [] h = cc
truncate_text_shorter (c ∷ t) h = ground (
  arith,
  length-append (take (max 1 (length (c ∷ t) / 2 - 1)) (c ∷ t)) (8230 ∷ []),
  length-take-le (max 1 (length (c ∷ t) / 2 - 1)) (c ∷ t),
)

shorter_size : (o : Option Text) → present o ≡ true → text_size (shorter o) < text_size o
shorter_size none h = cc
shorter_size (some t) h = truncate_text_shorter t (ground arith)

clean-shorter : (o : Option Text) → clean? o ≡ true → clean? (shorter o) ≡ true
clean-shorter none h = refl
clean-shorter (some t) h = clean-truncate_text t h

shrink-total : (e e' : ErrorFields) → shrink e ≡ some e' → total e' < total e
unfolding shrink total
shrink-total e e' h =
    ground (
      arith,
      shorter_size e.traceback,
      truncate_text_shorter e.message,
      truncate_text_shorter e.kind,
    )

shrink-IsClean : (e e' : ErrorFields) → IsClean e → shrink e ≡ some e' → IsClean e'
unfolding shrink
shrink-IsClean e e' c h =
    ground
      (arith, clean-shorter e.traceback, clean-truncate_text e.message, clean-truncate_text e.kind)

module _ (json : Json) (w : WritesTexts json) where
  -- The outcome is a dict that is written in at most `n` bytes.
  abbrev pub FitsIn : ℕ → Outcome Fields → Type 0
  FitsIn n r =
      (fs : Fields) × (r ≡ ok fs) × (b : Bytes) × (json.dumps (dict fs) ≡ some b) × (length b ≤ n)

  shrink_to-FitsIn :
      (fuel n : ℕ) (e : ErrorFields)
      → 2 ≤ n
      → IsClean e
      → total e < fuel
      → FitsIn n (shrink_to json fuel n e)
  unfolding shrink_to json_bytes
  shrink_to-FitsIn zero n e two c h = elim h [ ]
  shrink_to-FitsIn (suc fuel) n e two c h =
      let (b, wrote) = w.texts e c in
      elim (Bool-cases (leb (length b) n)) [
        | inl fits ↦ (to_fields e, ground arith, b, wrote, ground arith)
        | inr big ↦ elim (Option-cases (shrink e)) [
          | inl stop ↦ (end, ground arith, b'{' ∷ b'}' ∷ [], w.empty, two)
          | inr (e', step) ↦
              let (fs, r, out, written, fits) =
                shrink_to-FitsIn fuel n e' two (shrink-IsClean e e' c step)
                  (omega (arith, shrink-total e e' step)) in
              (fs, ground arith, out, written, fits)
        ]
      ]

  error_details-IsClean : (exc : Raised) → IsClean (error_details exc true none none)
  unfolding error_details sliced
  error_details-IsClean exc =
      ground (arith, clean-safe_text exc.class_name, clean-safe_text (message_of exc.message))

  clean-traceback_of : (o : Option Text) → clean (traceback_of o) ≡ true
  unfolding traceback_of
  clean-traceback_of none = unfold is_surrogate in refl
  clean-traceback_of (some t) = clean-safe_text t

  -- For every exception, however its `str` and its traceback behave, `bounded_error` ends and returns
  -- a dict whose JSON has at most `max_bytes` bytes, if `max_bytes` is at least 2 and `json.dumps`
  -- writes dicts of texts.
  pub bounded_error-FitsIn :
      (exc : Raised) (max_bytes : ℕ) (include_traceback : Bool)
      → 2 ≤ max_bytes
      → FitsIn max_bytes (bounded_error json exc max_bytes include_traceback)
  unfolding bounded_error
  bounded_error-FitsIn exc n true h =
      let d = error_details exc true none none in
      let e : ErrorFields = record d { traceback = some (traceback_of exc.formatted) } in
      let (kind, message, _) = error_details-IsClean exc in
      let (fs, r, out, written, fits) =
        shrink_to-FitsIn (suc (total e)) n e h (kind, message, clean-traceback_of exc.formatted)
          (omega arith) in
      (fs, ground arith, out, written, fits)
  bounded_error-FitsIn exc n false h =
      let d = error_details exc true none none in
      let (fs, r, out, written, fits) =
        shrink_to-FitsIn (suc (total d)) n d h (error_details-IsClean exc) (omega arith) in
      (fs, ground arith, out, written, fits)
