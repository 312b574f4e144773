-- ===== src/Attest.antt =====
-- apps/operator/src/fdc.ts and `handleIncomingPayment` of apps/operator/src/handlePayment.ts: from a
-- payment on the ledger to its execution on Flare. The services and the chain are the parameter
-- `Remote`; the cache of contract addresses is left out, since it only repeats answers.
pub mod Services
pub mod Finalization
pub mod Answers
pub mod Handle
mod Tests
use giroledger.Base.{
  ℕ, zero, suc, ◌+◌, ◌-◌, ◌*◌, ◌/◌, ◌%◌, Bool, true, false, not, Option, none, some, List, [], ◌∷◌,
  ◌++◌, ltb, ◌==◌, if◌then◌else◌, length,
}
use giroledger.Base.Int.{pos}
use giroledger.Base.Text.{Text, codes, text_eq}
use giroledger.Base.Result.{Result, ok, err, ◌>>=◌, ◌>>◌, throw_if, or_throw}
use giroledger.Base.Calls.{Run, call}
use giroledger.Memo.{XrplTx, extract_memo, normalise_tx_id}
use giroledger.Flow.Waits.{compute_round_id}
use giroledger.Web.Numbers.{Number, whole, number}
use giroledger.Attest.Services.{
  hex_digit, hex_byte, hex_text, zeros, to_padded_hex, attestation_type_payment, source_test_xrp,
  FdcConfig, PreparedRequest, PrepareBody, PaymentStatus, Response, ProofBody, PaymentProof, Tx,
  Remote, zero_address, is_zero, not_success, contract_by_name, prepare_xrp_payment_request,
  read_request_fee, fetch_proof, coded, written, request_attestation, execute_instruction,
}

-- How `waitForFinalization` ends: the round is final, the time is over, or a read threw. `running` is a
-- loop that is not over within the fuel.
pub data Waited : Type 0 where
  finalized : (poll : ℕ) → Waited
  timed_out running : Waited
  threw : Text → Waited

-- The loop of `waitForFinalization` from poll `n` on. The time is read behind the answer.
unfoldable pub wait_from :
    (fuel deadline : ℕ) (time : ℕ → ℕ) (answer : ℕ → Result Text Bool) (n : ℕ) → Waited
wait_from zero deadline time answer n = running
wait_from (suc fuel) deadline time answer n = elim (answer n) [
  | err e ↦ threw e
  | ok true ↦ finalized n
  | ok false ↦ (elim (ltb deadline (time n)) [
    | true ↦ timed_out
    | false ↦ wait_from fuel deadline time answer (suc n)
  ])
]

abbrev pub waited_result : Waited → Result Text (Unit {0})
waited_result (finalized n) = ok tt
waited_result timed_out = err (codes "round did not finalize in time")
waited_result running = err (codes "still waiting")
waited_result (threw e) = err e

abbrev pub timeout_ms : ℕ
timeout_ms = 300_000

abbrev pub poll_ms : ℕ
poll_ms = 10_000

-- A poll more than the time allows.
abbrev pub poll_fuel : ℕ
poll_fuel = 32

module _ (w : Remote) where
  -- `waitForFinalization`, with its default times.
  unfoldable pub wait_for_finalization : (started round : ℕ) → Result Text (Unit {0})
  wait_for_finalization started round = do
    relay ← contract_by_name w (codes "Relay")
    waited_result (wait_from poll_fuel (started + timeout_ms) w.time (w.is_finalized relay round) 0)

-- How the handling of a payment ends.
pub data Handled : Type 0 where
  no_memo no_account already_used : Handled
  executed : (hash : Text) → Handled

-- The account of a payment; an empty text counts as none.
abbrev pub non_empty : Option Text → Option Text
non_empty none = none
non_empty (some []) = none
non_empty (some (c ∷ t)) = some (c ∷ t)

abbrev pub source_of : XrplTx → Option Text
source_of tx = non_empty tx.account

module _ (w : Remote) (config : FdcConfig) (started : ℕ) where
  -- `submitInstruction`, behind the attestation.
  unfoldable pub submit_instruction : List Tx → PaymentProof → Text → Run Tx Handled
  submit_instruction sent proof source =
      call sent (contract_by_name w (codes "MasterAccountController")) λ mac.
        call sent (or_throw w.account (codes "wallet client has no account")) λ account.
          call sent (w.default_instruction_fee mac) λ fee.
            let last = execute_instruction mac proof source fee in
            call (sent ++ last ∷ []) (w.send last) λ hash.
              call (sent ++ last ∷ []) (w.receipt hash) λ _. (sent ++ last ∷ [], ok (executed hash))

  -- What follows the request: the round of the attestation, the wait for it, the proof.
  unfoldable pub attested : List Tx → Text → Text → Text → Run Tx Handled
  attested sent source request hash = call sent (w.receipt_timestamp hash) λ timestamp.
      let round =
        compute_round_id timestamp config.first_voting_round_start_ts
          config.voting_epoch_duration_seconds in
      call sent (wait_for_finalization w started round)
        λ _. call sent (fetch_proof w round request) λ proof. submit_instruction sent proof source

  -- `prepareXrpPaymentRequest` and `requestAttestation`.
  unfoldable pub attest : Text → Text → Run Tx Handled
  attest source id = call [] (prepare_xrp_payment_request w id) λ prepared.
      call [] (contract_by_name w (codes "FdcHub")) λ hub.
        call [] (read_request_fee w prepared.abi_encoded_request) λ fee.
          call [] (or_throw w.account (codes "wallet client has no account")) λ account.
            let first = request_attestation hub prepared.abi_encoded_request fee in
            call (first ∷ []) (w.send first)
              λ hash. attested (first ∷ []) source prepared.abi_encoded_request hash

  -- The check for a replay, and what follows it.
  unfoldable pub unless_used : Text → Text → Run Tx Handled
  unless_used source id = call [] (contract_by_name w (codes "MasterAccountController")) λ mac.
      call [] (w.is_transaction_id_used mac id)
        λ used. if used then ([], ok already_used) else attest source id

  -- `handleIncomingPayment`.
  unfoldable pub handle_incoming_payment : XrplTx → Text → Run Tx Handled
  handle_incoming_payment tx hash = elim (extract_memo tx) [
    | none ↦ ([], ok no_memo)
    | some memo ↦ (elim (source_of tx) [
      | none ↦ ([], ok no_account)
      | some source ↦ unless_used source (normalise_tx_id hash)
    ])
  ]
