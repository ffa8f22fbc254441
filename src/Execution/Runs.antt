-- ===== src/Execution/Runs.antt =====
-- `run_task` of clients/python/tay/execution.py: what a task gave, once it was called and awaited.
use tay.Prelude.{ℕ, ◌≤◌, ◌≡◌, true, some, arith, ltb, length, Option-cases, inl, inr}
use tay.Prelude.Outcome.{Error, Outcome, ok, err, ◌>>=◌, ◌>>◌, reject, Outcome-cases}
use tay.Text.{Bytes}
use tay.Value.{Value}
use tay.Protocol.{normalize_json}
use tay.Protocol.Safe.{is_json, normalize_json-ok, normalize_json-is_json}
use tay.Protocol.Codec.{Json, json_bytes}

module _ (json : Json) where
  -- `given` is the awaited result or the exception of the callable, `size_error` the exception for a
  -- result that is too large.
  unfoldable pub run_task : Outcome Value → ℕ → Error → Outcome Value
  unfolding json_bytes
  run_task given max_result_bytes size_error = do
    v ← given
    result ← normalize_json v
    b ← json_bytes json result
    reject (ltb max_result_bytes (length b)) size_error
    ok result

  -- A result that `run_task` returns is what the task gave, is a JSON value, and is written in at most
  -- `max_result_bytes` bytes.
  pub run_task-fits :
      (given : Outcome Value) (max_result_bytes : ℕ) (size_error : Error) (v : Value)
      → run_task given max_result_bytes size_error ≡ ok v
      → (given ≡ ok v)
        × (is_json v ≡ true)
        × (b : Bytes) × (json.dumps v ≡ some b)
        × (length b ≤ max_result_bytes)
  unfolding run_task
  run_task-fits (err e) n size v h = cc
  run_task-fits (ok w) n size v h = elim (Outcome-cases (normalize_json w)) [
    | inr (e, p) ↦ absurd (ground arith)
    | inl (x, p) ↦ elim (Option-cases (json.dumps x)) [
      | inl q ↦ absurd (ground arith)
      | inr (b, q) ↦
          let same : x ≡ v = ground arith in
          let whole : x ≡ w = normalize_json-ok w x p in
          (cc, cc (normalize_json-is_json w x p), b, cc, ground arith)
    ]
  ]
