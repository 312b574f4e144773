-- ===== src/Attest/Services.antt =====
-- The services and the chain that apps/operator/src/fdc.ts calls, and its requests to them.
use giroledger.Base.{
  ℕ, zero, suc, ◌+◌, ◌-◌, ◌/◌, ◌%◌, Bool, false, not, Option, none, some, List, [], ◌∷◌, ◌++◌, ltb,
  ◌==◌, if◌then◌else◌, length,
}
use giroledger.Base.Int.{pos}
use giroledger.Base.Text.{Text, codes, text_eq}
use giroledger.Base.Result.{Result, ok, ◌>>=◌, ◌>>◌, throw_if, or_throw}
use giroledger.Web.Numbers.{Number, whole, number}

abbrev pub hex_digit : ℕ → ℕ
hex_digit d = if ltb d 10 then b'0' + d else b'a' + (d - 10)

-- A byte as two digits.
abbrev pub hex_byte : ℕ → Text
hex_byte c = hex_digit (c / 16) ∷ hex_digit (c % 16) ∷ []

abbrev pub hex_text : Text → Text
hex_text [] = []
hex_text (c ∷ t) = hex_byte c ++ hex_text t

abbrev pub zeros : ℕ → Text
zeros zero = []
zeros (suc n) = b'0' ∷ zeros n

-- `toPaddedHex`, on characters below 256.
unfoldable pub to_padded_hex : Text → Text
to_padded_hex text = codes "0x" ++ hex_text text ++ zeros (64 - length (hex_text text))

abbrev pub attestation_type_payment : Text
unfolding to_padded_hex
attestation_type_payment = to_padded_hex (codes "Payment")

abbrev pub source_test_xrp : Text
unfolding to_padded_hex
source_test_xrp = to_padded_hex (codes "testXRP")

pub record FdcConfig : Type 0 where
  pub first_voting_round_start_ts : ℕ
  pub voting_epoch_duration_seconds : ℕ

pub record PreparedRequest : Type 0 where
  pub status : Text
  pub abi_encoded_request : Text

-- The request to the verifier.
pub record PrepareBody : Type 0 where
  pub attestation_type : Text
  pub source_id : Text
  pub transaction_id : Text

-- The status of an attested payment, a number or a text in the answer.
pub data PaymentStatus : Type 0 where
  coded : ℕ → PaymentStatus
  written : Text → PaymentStatus

pub record Response : Type 0 where
  pub status : Option PaymentStatus
  pub content : Text

pub record ProofBody : Type 0 where
  pub proof : Option (List Text)
  pub response : Option Response

pub record PaymentProof : Type 0 where
  pub merkle_proof : List Text
  pub content : Response

-- What is sent to the chain.
pub data Tx : Type 0 where
  request_attestation : (hub request : Text) (fee : ℕ) → Tx
  execute_instruction : (controller : Text) (proof : PaymentProof) (source : Text) (fee : ℕ) → Tx

-- The answers of the verifier, the data layer and the chain; each may throw its message. An HTTP answer
-- is whether it is ok and its body. The reads of `isFinalized` are numbered, and read at a time.
pub record Remote : Type 0 where
  pub contract_address_by_name : Text → Result Text Text
  pub is_transaction_id_used : (controller id : Text) → Result Text Bool
  pub prepare : PrepareBody → Result Text (Bool × PreparedRequest)
  pub request_fee : (contract request : Text) → Result Text ℕ
  pub account : Option Text
  pub send : Tx → Result Text Text
  pub receipt_timestamp : (hash : Text) → Result Text ℕ
  pub receipt : (hash : Text) → Result Text (Unit {0})
  pub is_finalized : (relay : Text) (round poll : ℕ) → Result Text Bool
  pub time : (poll : ℕ) → ℕ
  pub proof_of : (round : ℕ) (request : Text) → Result Text (Bool × ProofBody)
  pub default_instruction_fee : (controller : Text) → Result Text ℕ

abbrev pub zero_address : Text
zero_address = codes "0x0000000000000000000000000000000000000000"

-- `Number(status) !== PaymentStatus.SUCCESS`.
abbrev pub is_zero : Number → Bool
is_zero (whole (pos n)) = n == 0
is_zero _ = false

abbrev pub not_success : Option PaymentStatus → Bool
not_success none = false
not_success (some (coded n)) = not (n == 0)
not_success (some (written t)) = not (is_zero (number t))

module _ (w : Remote) where
  -- `contractByName`.
  unfoldable pub contract_by_name : Text → Result Text Text
  contract_by_name name = do
    address ← w.contract_address_by_name name
    throw_if (text_eq address zero_address) (codes "FlareContractRegistry has no such entry")
    ok address

  -- `prepareXrpPaymentRequest`.
  unfoldable pub prepare_xrp_payment_request : Text → Result Text PreparedRequest
  prepare_xrp_payment_request transaction_id = do
    res ← w.prepare (record {
      attestation_type = attestation_type_payment;
      source_id = source_test_xrp;
      transaction_id = transaction_id;
    })
    throw_if (not res.0) (codes "verifier prepareRequest failed")
    throw_if (not (text_eq res.1.status (codes "VALID"))) (codes "verifier rejected the request")
    ok res.1

  -- `readRequestFee`.
  unfoldable pub read_request_fee : Text → Result Text ℕ
  unfolding contract_by_name
  read_request_fee request = do
    contract ← contract_by_name (codes "FdcRequestFeeConfigurations")
    w.request_fee contract request

  -- `fetchProof`.
  unfoldable pub fetch_proof : ℕ → Text → Result Text PaymentProof
  fetch_proof round request = do
    res ← w.proof_of round request
    throw_if (not res.0) (codes "DA layer get-proof failed")
    proof ← or_throw res.1.proof (codes "DA layer returned no proof")
    response ← or_throw res.1.response (codes "DA layer returned no proof")
    throw_if (not_success response.status) (codes "attested payment was not successful")
    ok (record { merkle_proof = proof; content = response })
