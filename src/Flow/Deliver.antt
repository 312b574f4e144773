-- ===== src/Flow/Deliver.antt =====
-- What follows the payment in apps/operator/src/createRule.ts and cancelRule.ts: the payment itself, the
-- wait for finality, the proof, the submission and the reading of its result. The ledger, the services
-- and the chain are the parameter `Rest`. The addresses that the part before the payment looked up are
-- looked up again, with the same answers.
pub mod Safety
pub mod Create
mod Tests
use giroledger.Base.{
  ℕ, zero, suc, ◌+◌, ◌*◌, Bool, true, false, not, Option, none, some, List, [], ◌∷◌, ◌++◌, ltb,
  if◌then◌else◌,
}
use giroledger.Base.Text.{Text, codes, text_eq}
use giroledger.Base.Result.{Result, ok, err, ◌>>=◌, ◌>>◌, throw_if, or_throw}
use giroledger.Base.Calls.{Run, call}
use giroledger.Rules.{CreateRuleParams}
use giroledger.Memo.{Viem, ContractSet, HashInstructionMemo, normalise_tx_id}
use giroledger.Flow.{World, Payment, prepare_create, prepare_cancel}
use giroledger.Flow.Waits.{wait_for_xrpl_finality, poll_proof, compute_round_id}

-- What is sent: the payment on the ledger, and two transactions on Flare.
pub data Sent : Type 0 where
  paid : Payment → Sent
  asked : (hub request : Text) (fee : ℕ) → Sent
  minted : (manager proof payload : Text) (value gas : ℕ) → Sent

pub record Receipt : Type 0 where
  pub reverted : Bool
  pub rules_created : List Text

-- The result of a payment is missing where its metadata are no object. An answer of the verifier is
-- whether it is ok, its status and the encoded request.
pub record Rest : Type 0 where
  pub submit : Payment → Result Text (Text × Option Text)
  pub ledger_of : (hash : Text) → Result Text ℕ
  pub validated : (poll : ℕ) → Result Text ℕ
  pub owner : Text
  pub prepare : (transaction_id proof_owner : Text) → Result Text (Bool × Text × Text)
  pub request_fee : (contract request : Text) → Result Text ℕ
  pub send : Sent → Result Text Text
  pub timestamp : (hash : Text) → Result Text ℕ
  pub first_round_start : Result Text ℕ
  pub round_duration : Result Text ℕ
  pub da_layer : Option Text
  pub proof_at : (round : ℕ) (request : Text) (attempt : ℕ) → Result Text (Option Text)
  pub estimate : (manager proof payload : Text) (value : ℕ) → Result Text ℕ
  pub receipt : (hash : Text) → Result Text Receipt
  pub rule_active : (rule_id : Text) → Result Text Bool
  pub allowance : (owner spender : Text) → Result Text ℕ

-- The result's text, `unknown` where there is none.
abbrev pub result_text : Option Text → Text
result_text none = codes "unknown"
result_text (some t) = t

-- `estimated * 2n > 1_500_000n ? estimated * 2n : 1_500_000n`.
unfoldable pub doubled_gas : ℕ → ℕ
doubled_gas estimated = if ltb 1_500_000 (estimated * 2) then estimated * 2 else 1_500_000

abbrev pub over_or_throw : Option ℕ → Result Text (Unit {0})
over_or_throw none = err (codes "still waiting")
over_or_throw (some n) = ok tt

module _ (rest : Rest) where
  -- The wait for the ledger, on fuel.
  unfoldable pub finality : ℕ → Text → Result Text (Unit {0})
  finality fuel hash = do
    ledger ← rest.ledger_of hash
    ended ← wait_for_xrpl_finality fuel ledger rest.validated 0
    over_or_throw ended

  -- The request for the proof, as the verifier encodes it.
  unfoldable pub prepare_request : Text → Result Text Text
  prepare_request transaction_id = do
    res ← rest.prepare transaction_id rest.owner
    throw_if (not res.0) (codes "verifier prepareRequest failed")
    throw_if (not (text_eq res.1 (codes "VALID"))) (codes "verifier rejected request")
    ok res.2

  -- The round of the attestation, and the proof that the data layer gives for it within sixty polls.
  unfoldable pub poll_round : Text → Text → Result Text Text
  poll_round request hash = do
    timestamp ← rest.timestamp hash
    start ← rest.first_round_start
    duration ← rest.round_duration
    da ← or_throw rest.da_layer (codes "FDC_DA_LAYER_URL is not set")
    found ← poll_proof 60 (rest.proof_at (compute_round_id timestamp start duration) request) 0
    ok found.0

  -- The submission of the proof, and its receipt.
  unfoldable pub submit_proof : List Sent → Text → HashInstructionMemo → Text → Run Sent Receipt
  submit_proof sent manager memo proof =
      call sent (rest.estimate manager proof memo.payload memo.total_call_value) λ estimated.
        let mint =
          minted manager proof memo.payload memo.total_call_value (doubled_gas estimated) in
        call (sent ++ mint ∷ []) (rest.send mint) λ hash.
          call (sent ++ mint ∷ []) (rest.receipt hash) λ receipt.
            call (sent ++ mint ∷ [])
              (throw_if receipt.reverted (codes "executeDirectMintingWithData reverted"))
              λ _. (sent ++ mint ∷ [], ok receipt)

module _ (w : World) (rest : Rest) (fuel : ℕ) where
  -- `fetchXrpPaymentProof`, and the submission.
  unfoldable pub prove : List Sent → Text → HashInstructionMemo → Text → Run Sent Receipt
  prove sent manager memo hash = call sent (prepare_request rest (normalise_tx_id hash)) λ request.
      call sent (w.contract_by_name (codes "FdcHub")) λ hub.
        call sent (w.contract_by_name (codes "FdcRequestFeeConfigurations")) λ fee_config.
          call sent (rest.request_fee fee_config request) λ fee.
            let ask = asked hub request fee in
            call (sent ++ ask ∷ []) (rest.send ask) λ attested.
              call (sent ++ ask ∷ []) (poll_round rest request attested)
                λ proof. submit_proof rest (sent ++ ask ∷ []) manager memo proof

  -- The payment and all that follows it.
  unfoldable pub deliver : Text → Payment → HashInstructionMemo → Run Sent Receipt
  deliver manager payment memo = call (paid payment ∷ []) (rest.submit payment) λ submitted.
      call (paid payment ∷ [])
        (throw_if (not (text_eq (result_text submitted.1) (codes "tesSUCCESS")))
          (codes "XRPL payment did not succeed"))
        λ _.
          call (paid payment ∷ []) (finality rest fuel submitted.0)
            λ _. prove (paid payment ∷ []) manager memo submitted.0

-- What follows a chain whose result is read further.
abbrev pub continue {ℓ κ} :
    {A : Type ℓ} {B : Type κ} → Run Sent A → (A → Result Text B) → Run Sent B
continue (sent, ok a) next = (sent, next a)
continue (sent, err e) next = (sent, err e)

-- The first `RuleCreated` of a receipt.
abbrev pub first_created : Receipt → Result Text Text
first_created receipt = elim receipt.rules_created [
  | [] ↦ err (codes "No RuleCreated")
  | id ∷ ids ↦ ok id
]

-- What is read of a rule that was cancelled.
pub record CancelResult : Type 0 where
  pub active : Bool
  pub allowance : ℕ

module _ (v : Viem) (w : World) (contracts : ContractSet) (wallet : Text) (rest : Rest)
    (fuel : ℕ) where
  -- `createRule`.
  unfoldable pub create_rule_flow : CreateRuleParams → ℕ → Run Sent Text
  create_rule_flow params net = call [] (w.contract_by_name (codes "AssetManagerFXRP")) λ manager.
      call [] (prepare_create v w contracts wallet params net)
        λ prepared. continue (deliver w rest fuel manager prepared.0 prepared.1) first_created

  abbrev pub read_back : Text → Text → Receipt → Result Text CancelResult
  read_back rule_id account receipt = do
    active ← rest.rule_active rule_id
    allowance ← rest.allowance account contracts.rule_executor
    ok (record { active = active; allowance = allowance })

  -- `cancelRule`, for the wallet's account.
  unfoldable pub cancel_rule_flow : Text → Run Sent CancelResult
  cancel_rule_flow rule_id =
      call [] (w.contract_by_name (codes "MasterAccountController")) λ controller.
        call [] (w.contract_by_name (codes "AssetManagerFXRP")) λ manager.
          call [] (w.personal_account controller wallet) λ account.
            call [] (prepare_cancel v w contracts wallet rule_id) λ prepared.
              continue (deliver w rest fuel manager prepared.0 prepared.1)
                (read_back rule_id account)
