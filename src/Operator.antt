-- ===== src/Operator.antt =====
-- apps/operator/src/index.ts and server.ts: the process that brings payments and instructions together.
-- A completion that has started and not ended is a job; the steps of the process come in any order, and
-- a job ends in a step of its own. What a job asks of the chain is the parameter `Chain`.
pub mod Server
pub mod Steps
pub mod Waiting
pub mod Matching
pub mod History
pub mod Counts
pub mod Completion
mod Tests
use giroledger.Base.{
  ℕ, zero, suc, ◌+◌, ◌*◌, Bool, true, false, not, ◌&&◌, ◌||◌, Option, none, some, List, [], ◌∷◌,
  ◌++◌, ltb, if◌then◌else◌, length,
}
use giroledger.Base.Text.{Text, codes, text_eq}
use giroledger.Base.Result.{Result, ok, err, ◌>>=◌, ◌>>◌, throw_if}
use giroledger.Memo.{XrplTx, extract_memo, memo_user_op_hash, normalise_tx_id}
use giroledger.Store.{
  InstructionStore, PendingInstruction, OrphanPayment, Input, FileShape, Error, add, find,
  record_orphan, take_orphan, mark_completed, pending, size, orphan_count, load,
}

pub record OperatorHealth : Type 0 where
  pub started_at : ℕ
  pub watching : Option Text
  pub seen : ℕ
  pub completed : ℕ
  pub failed : ℕ
  pub last_error : Option Text

-- A call of `complete` that has not returned.
pub record Job : Type 0 where
  pub instruction : PendingInstruction
  pub xrpl_tx : Text

-- `wired` is `wiring !== null`.
pub record Operator : Type 0 where
  pub store : InstructionStore
  pub health : OperatorHealth
  pub wired : Bool
  pub jobs : List Job

-- What `complete` asks of the ledger, the attestation service and the chain; each may throw its message.
pub record Chain : Type 0 where
  pub is_used : Text → Result Text Bool
  pub finality : Text → Result Text (Unit {0})
  pub proof : Text → Result Text Text
  pub big_int : Text → Result Text ℕ
  pub estimate : (proof payload : Text) → (value : ℕ) → Result Text ℕ
  pub write : (proof payload : Text) → (value gas : ℕ) → Result Text Text
  pub reverted : Text → Result Text Bool

-- The transaction that completed a payment.
pub record Sent : Type 0 where
  pub payload : Text
  pub proof : Text
  pub gas : ℕ
  pub hash : Text

abbrev pub gas_for : ℕ → ℕ
gas_for estimated = if ltb 1_500_000 (estimated * 2) then estimated * 2 else 1_500_000

-- `complete` up to the change of the state; `none` is a payment that was used already.
unfoldable pub complete : Chain → Job → Result Text (Option Sent)
complete chain job = do
  used ← chain.is_used (normalise_tx_id job.xrpl_tx)
  if used then ok none else (do
    chain.finality job.xrpl_tx
    proof ← chain.proof (normalise_tx_id job.xrpl_tx)
    value ← chain.big_int job.instruction.total_call_value
    estimated ← chain.estimate proof job.instruction.payload value
    hash ← chain.write proof job.instruction.payload value (gas_for estimated)
    failed ← chain.reverted hash
    throw_if failed (codes "executeDirectMintingWithData reverted: " ++ hash)
    ok (
        some (record {
          payload = job.instruction.payload;
          proof = proof;
          gas = gas_for estimated;
          hash = hash;
        })))

-- The end of `complete`, and the `catch` of its callers.
unfoldable pub settle : Job → Result Text (Option Sent) → Operator → Operator
settle job (ok none) o = o
settle job (ok (some sent)) o = record o {
  store = mark_completed o.store job.instruction.user_op_hash sent.hash job.xrpl_tx;
  health = record (o.health) { completed = o.health.completed + 1 };
}
settle job (err message) o = record o {
  health = record (o.health) { failed = o.health.failed + 1; last_error = some message };
}

-- A payment is seen, and its completion starts.
unfoldable pub start : Job → Operator → Operator
start job o = record o {
  health = record (o.health) { seen = o.health.seen + 1 };
  jobs = o.jobs ++ job ∷ [];
}

-- A payment that was taken out of the store is completed with its instruction.
abbrev pub start_held :
    PendingInstruction → Option OrphanPayment × InstructionStore → Operator → Operator
start_held instruction (none, store) o = o
start_held instruction (some orphan, store) o =
    start (record { instruction = instruction; xrpl_tx = orphan.xrpl_tx })
      (record o { store = store })

-- `completeHeld`.
unfoldable pub complete_held : PendingInstruction → Operator → Operator
complete_held instruction o =
    if not o.wired
    then o
    else start_held instruction (take_orphan o.store instruction.user_op_hash) o

abbrev pub sweep : List PendingInstruction → Operator → Operator
sweep [] o = o
sweep (i ∷ is) o = sweep is (complete_held i o)

-- The end of the startup: the address is watched, and what was waiting is completed.
unfoldable pub connect : Text → Operator → Operator
connect core_vault o =
    let wired = record o {
      health = record (o.health) { watching = some core_vault };
      wired = true;
    } in
    sweep (pending wired.store) wired

-- One message of the ledger's stream: the transaction, its result where the stream says it, its hash.
pub record TransactionStream : Type 0 where
  pub tx : Option XrplTx
  pub result : Option Text
  pub hash : Option Text

abbrev pub or_unknown : Option Text → Text
or_unknown none = codes "unknown"
or_unknown (some h) = h

abbrev pub is_failure : Option Text → Bool
is_failure none = false
is_failure (some r) = not (text_eq r (codes "tesSUCCESS"))

abbrev pub is_completed : Option Text → Bool
is_completed none = false
is_completed (some tx) = true

-- The handler of the stream, behind its guards.
unfoldable pub on_instruction : ℕ → Text → Text → Operator → Operator
on_instruction now user_op_hash xrpl_tx o = elim (find o.store user_op_hash) [
  | none ↦ record o { store = record_orphan o.store now user_op_hash xrpl_tx }
  | some instruction ↦
      if is_completed instruction.completed_tx
      then o
      else start (record { instruction = instruction; xrpl_tx = xrpl_tx }) o
]

-- The hash that a payment asks to complete, where all guards pass.
unfoldable pub asked_hash : TransactionStream → Option Text
asked_hash stream = elim stream.tx [
  | none ↦ none
  | some tx ↦
      if not (text_eq tx.transaction_type (codes "Payment")) || is_failure stream.result
      then none
      else elim (extract_memo tx) [ none ↦ none | some memo ↦ memo_user_op_hash memo ]
]

unfoldable pub on_transaction : ℕ → TransactionStream → Operator → Operator
on_transaction now stream o = elim (asked_hash stream) [
  | none ↦ o
  | some user_op_hash ↦ on_instruction now user_op_hash (or_unknown stream.hash) o
]

abbrev pub take_job : ℕ → List Job → Option (Job × List Job)
take_job n [] = none
take_job zero (j ∷ js) = some (j, js)
take_job (suc n) (j ∷ js) = elim (take_job n js) [ none ↦ none | some (i, is) ↦ some (i, j ∷ is) ]

-- A job ends, with what the chain answered it.
unfoldable pub finish_job : ℕ → Chain → Operator → Operator
finish_job n chain o = elim (take_job n o.jobs) [
  | none ↦ o
  | some (job, rest) ↦ settle job (complete chain job) (record o { jobs = rest })
]

-- A process that starts over the file of the store.
unfoldable pub boot : ℕ → Option FileShape → Operator
boot now file = record {
  store = load now file;
  health = record {
    started_at = now;
    watching = none;
    seen = 0;
    completed = 0;
    failed = 0;
    last_error = none;
  };
  wired = false;
  jobs = [];
}
