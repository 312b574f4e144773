-- ===== src/Flow/Deliver/Tests.antt =====
-- A creation that goes through, and one whose payment fails.
use giroledger.Base.{◌+◌, ◌≡◌, refl, true, false, none, some, [], ◌∷◌, ◌==◌, if◌then◌else◌}
use giroledger.Base.Text.{codes}
use giroledger.Base.Result.{ok}
use giroledger.Memo.{
  encode_packed_user_op, encode_hash_instruction_memo, build_create_rule_calls,
  build_create_rule_instruction, to_xrpl_hex, normalise_tx_id,
}
use giroledger.Commitment.{sum_active_commitment}
use giroledger.Flow.{
  compute_direct_minting_payment_uba, read_active_commitment, compute_payment, prepare_payment,
  prepare_create,
}
use giroledger.Flow.Waits.{wait_for_xrpl_finality, poll_proof, compute_round_id}
use giroledger.Flow.Tests.{toy_viem, world, contracts, weekly, memo, payment_of}
use giroledger.Flow.Deliver.{
  paid, asked, minted, Rest, doubled_gas, finality, prepare_request, poll_round, submit_proof,
  prove, deliver, create_rule_flow,
}
use giroledger.Flow.Deliver.Create.{CreateSafe, create_rule_flow-CreateSafe}

abbrev rest : Rest
rest = record {
  submit = λ p. ok (codes "AB", some (codes "tesSUCCESS"));
  ledger_of = λ hash. ok 100;
  validated = λ poll. ok (100 + poll);
  owner = codes "0xop";
  prepare = λ id owner. ok (true, codes "VALID", codes "0xreq");
  request_fee = λ contract request. ok 7;
  send = λ s. ok (codes "0xt");
  timestamp = λ hash. ok 1_000;
  first_round_start = ok 100;
  round_duration = ok 90;
  da_layer = some (codes "da");
  proof_at = λ round request attempt. ok (if attempt == 4 then some (codes "0xproof") else none);
  estimate = λ manager proof payload value. ok 900_000;
  receipt = λ hash. ok (record { reverted = false; rules_created = codes "0x9" ∷ [] });
  rule_active = λ id. ok false;
  allowance = λ owner spender. ok 0;
}

created : create_rule_flow toy_viem world contracts (codes "rUser") rest 10 weekly 10_000_000 ≡ (
  paid (payment_of 10_200_000)
      ∷ asked (codes "fdchub") (codes "0xreq") 7
      ∷ minted (codes "assetmanagerfxrp") (codes "0xproof") memo.payload 0 1_800_000
      ∷ [],
  ok (codes "0x9"),
)
unfolding create_rule_flow deliver prove submit_proof poll_round prepare_request finality
    doubled_gas wait_for_xrpl_finality poll_proof compute_round_id
    compute_direct_minting_payment_uba read_active_commitment compute_payment prepare_payment
    prepare_create build_create_rule_calls encode_packed_user_op encode_hash_instruction_memo
    build_create_rule_instruction to_xrpl_hex sum_active_commitment normalise_tx_id
created = refl

create_rule_flow-CreateSafe_example :
    CreateSafe rest 10
      (prepare_create toy_viem world contracts (codes "rUser") weekly 10_000_000)
      (create_rule_flow toy_viem world contracts (codes "rUser") rest 10 weekly 10_000_000)
create_rule_flow-CreateSafe_example =
    create_rule_flow-CreateSafe toy_viem world contracts (codes "rUser") rest 10 weekly 10_000_000
