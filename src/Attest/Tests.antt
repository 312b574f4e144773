-- ===== src/Attest/Tests.antt =====
-- One payment on its way to Flare.
use giroledger.Base.{◌+◌, ◌*◌, ◌≡◌, refl, true, false, some, [], ◌∷◌, leb}
use giroledger.Base.Text.{codes}
use giroledger.Base.Result.{ok}
use giroledger.Memo.{XrplTx, extract_memo, normalise_tx_id}
use giroledger.Flow.Waits.{compute_round_id}
use giroledger.Attest.{
  executed, wait_from, wait_for_finalization, submit_instruction, attested, attest, unless_used,
  handle_incoming_payment,
}
use giroledger.Attest.Services.{
  Remote, FdcConfig, PaymentProof, request_attestation, execute_instruction, coded,
  contract_by_name, prepare_xrp_payment_request, read_request_fee, fetch_proof, to_padded_hex,
}
use giroledger.Attest.Handle.{IsSafe, handle_incoming_payment-IsSafe}

padded :
    to_padded_hex (codes "Payment")
    ≡ codes "0x5061796d656e7400000000000000000000000000000000000000000000000000"
unfolding to_padded_hex
padded = refl

abbrev remote : Remote
remote = record {
  contract_address_by_name = λ name. ok name;
  is_transaction_id_used = λ controller id. ok false;
  prepare =
      λ b. ok (true, record { status = codes "VALID"; abi_encoded_request = b.transaction_id });
  request_fee = λ contract request. ok 3;
  account = some (codes "0xop");
  send = λ t. ok (codes "0xt");
  receipt_timestamp = λ hash. ok 1_000;
  receipt = λ hash. ok tt;
  is_finalized = λ relay round poll. ok (leb 9 poll);
  time = λ poll. 500 + poll * 10_000;
  proof_of = λ round request. ok (
    true,
    record {
      proof = some (codes "0xn" ∷ []);
      response = some (record { status = some (coded 0); content = request });
    },
  );
  default_instruction_fee = λ controller. ok 2;
}

abbrev config : FdcConfig
config = record { first_voting_round_start_ts = 100; voting_epoch_duration_seconds = 90 }

abbrev incoming : XrplTx
incoming = record {
  transaction_type = codes "Payment";
  account = some (codes "rUser");
  memos = some (some (codes "FE07") ∷ []);
}

abbrev shown_proof : PaymentProof
shown_proof = record {
  merkle_proof = codes "0xn" ∷ [];
  content = record { status = some (coded 0); content = codes "0xab" };
}

handled : handle_incoming_payment remote config 500 incoming (codes "AB") ≡ (
  request_attestation (codes "FdcHub") (codes "0xab") 3
      ∷ execute_instruction (codes "MasterAccountController") shown_proof (codes "rUser") 2
      ∷ [],
  ok (executed (codes "0xt")),
)
unfolding handle_incoming_payment unless_used attest attested submit_instruction contract_by_name
    prepare_xrp_payment_request read_request_fee fetch_proof wait_from wait_for_finalization
    extract_memo normalise_tx_id compute_round_id
handled = refl

handle_incoming_payment-IsSafe_example :
    IsSafe remote incoming
      (codes "AB")
      (handle_incoming_payment remote config 500 incoming (codes "AB"))
handle_incoming_payment-IsSafe_example =
    handle_incoming_payment-IsSafe remote config 500 incoming (codes "AB")
