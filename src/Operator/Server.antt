-- ===== src/Operator/Server.antt =====
-- apps/operator/src/server.ts: the routes of the operator. `parse` is `JSON.parse` on the body; a field
-- that is missing or no text is `none`.
use giroledger.Base.{
  ℕ, Bool, true, false, ◌&&◌, Option, none, some, List, [], ◌∷◌, ◌++◌, ltb, if◌then◌else◌, length,
}
use giroledger.Base.Text.{Text, codes, text_eq}
use giroledger.Base.Result.{Result, ok, err, ◌>>=◌, or_throw}
use giroledger.Store.{
  Error, PendingInstruction, InstructionStore, Input, add, pending, size, orphan_count,
}
use giroledger.Operator.{Operator, OperatorHealth, complete_held}

pub record Body : Type 0 where
  pub payload : Option Text
  pub memo_data : Option Text
  pub user_op_hash : Option Text
  pub total_call_value : Option Text

pub data Rejection : Type 0 where
  not_json missing_fields : Rejection
  refused : Error → Rejection

-- A request: the body comes in chunks.
pub record Request : Type 0 where
  pub method : Text
  pub url : Text
  pub chunks : List Text

pub record HealthBody : Type 0 where
  pub good : Bool
  pub health : OperatorHealth
  pub waiting : ℕ
  pub stored : ℕ
  pub held_payments : ℕ

pub data Response : Type 0 where
  no_content too_large not_found : Response
  healthy unavailable : HealthBody → Response
  accepted : (user_op_hash : Text) → Response
  rejected : Rejection → Response

abbrev pub status_code : Response → ℕ
status_code no_content = 204
status_code too_large = 413
status_code not_found = 404
status_code (healthy b) = 200
status_code (unavailable b) = 503
status_code (accepted h) = 202
status_code (rejected r) = 400

-- The body as it comes in; `none` once it is longer than the limit, and the rest is not read.
abbrev pub read_body : Text → List Text → Option Text
read_body raw [] = some raw
read_body raw (c ∷ cs) =
    let rest = read_body (raw ++ c) cs in if ltb 64_000 (length (raw ++ c)) then none else rest

-- A text that is neither missing nor empty.
abbrev pub given : Option Text → Option Text
given none = none
given (some []) = none
given (some (c ∷ t)) = some (c ∷ t)

abbrev pub or_zero : Option Text → Text
or_zero none = codes "0"
or_zero (some t) = t

unfoldable pub input_of : Option Body → Result Rejection Input
input_of parsed = do
  body ← or_throw parsed not_json
  payload ← or_throw (given body.payload) missing_fields
  memo_data ← or_throw (given body.memo_data) missing_fields
  user_op_hash ← or_throw (given body.user_op_hash) missing_fields
  ok (record {
    payload = payload;
    memo_data = memo_data;
    user_op_hash = user_op_hash;
    total_call_value = or_zero body.total_call_value;
  })

module _ (keccak256 : Text → Text) (parse : Text → Option Body) where
  -- An accepted instruction is stored, and a payment that waits for it is completed.
  abbrev pub answer_add :
      Result Error (PendingInstruction × InstructionStore) → Operator → Response × Operator
  answer_add (err e) o = (rejected (refused e), o)
  answer_add (ok (instruction, store)) o =
      (accepted instruction.user_op_hash, complete_held instruction (record o { store = store }))

  abbrev pub answer_input : ℕ → Result Rejection Input → Operator → Response × Operator
  answer_input now (err r) o = (rejected r, o)
  answer_input now (ok input) o = answer_add (add keccak256 o.store now input) o

  unfoldable pub post_instructions : ℕ → List Text → Operator → Response × Operator
  post_instructions now chunks o = elim (read_body [] chunks) [
    | none ↦ (too_large, o)
    | some raw ↦ answer_input now (input_of (parse raw)) o
  ]

  abbrev pub health_body : Operator → Bool → HealthBody
  health_body o good = record {
    good = good;
    health = o.health;
    waiting = length (pending o.store);
    stored = size o.store;
    held_payments = orphan_count o.store;
  }

  unfoldable pub get_health : Operator → Response
  get_health o = elim o.health.watching [
    | none ↦ unavailable (health_body o false)
    | some core_vault ↦ healthy (health_body o true)
  ]

  unfoldable pub serve : ℕ → Request → Operator → Response × Operator
  serve now request o =
      if text_eq request.method (codes "OPTIONS")
      then (no_content, o)
      else (if text_eq request.method (codes "GET") && text_eq request.url (codes "/health")
          then (get_health o, o)
          else (if text_eq request.method (codes "POST")
                && text_eq request.url (codes "/instructions")
              then post_instructions now request.chunks o
              else (not_found, o)))
