-- ===== src/Flow/Tests.antt =====
-- One account with one rule, its fees and its balance.
use giroledger.Base.{ℕ, ◌≡◌, refl, true, none, some, List, [], ◌∷◌, ◌++◌}
use giroledger.Base.Int.{pos}
use giroledger.Base.Text.{Text, codes, lower}
use giroledger.Base.Result.{ok}
use giroledger.Rules.{Rule, CreateRuleParams, time}
use giroledger.Memo.{
  Viem, Call, ContractSet, HashInstructionMemo, build_create_rule_calls, build_cancel_rule_calls,
  encode_packed_user_op, encode_hash_instruction_memo, build_create_rule_instruction,
  build_cancel_rule_instruction, to_xrpl_hex, join,
}
use giroledger.Commitment.{sum_active_commitment}
use giroledger.Flow.{
  World, Payment, MintingFees, compute_direct_minting_payment_uba, read_active_commitment,
  compute_payment, prepare_payment, prepare_create, prepare_cancel,
}
use giroledger.Flow.Guards.{Funded, prepare_create-ok, prepare_cancel-ok}

opened : Unit {0}
unfolding compute_direct_minting_payment_uba read_active_commitment compute_payment prepare_payment
    prepare_create prepare_cancel build_create_rule_calls build_cancel_rule_calls
    encode_packed_user_op encode_hash_instruction_memo build_create_rule_instruction
    build_cancel_rule_instruction to_xrpl_hex sum_active_commitment
opened = tt

abbrev pub toy_viem : Viem
toy_viem = record {
  encode_function_data = λ f. ok (codes "0xc0");
  encode_user_op = λ op. ok (codes "0x0b" ++ op.nonce ∷ []);
  keccak256 = λ t. codes "0x77";
  to_hex = λ n size. ok (codes "0x00");
  concat_hex = λ ts. join ts;
}

abbrev pub weekly : CreateRuleParams
weekly = record {
  vault = codes "0xv";
  amount_per_run = 5;
  total_spend_cap = 17;
  interval_secs = 604_800;
  max_runs = 2;
  trigger = time;
  start_at = 0;
  threshold_price = pos 0;
}

abbrev standing : Rule
standing = record {
  rule_id = codes "0x1";
  account = codes "0xACC";
  vault = codes "0xv";
  amount_per_run = 5;
  total_spend_cap = 20;
  total_spent = 5;
  next_run_at = 100;
  interval_secs = 60;
  max_runs = 0;
  runs_done = 1;
  threshold_price = pos 0;
  trigger = time;
  active = true;
}

abbrev pub world : World
world = record {
  contract_by_name = λ name. ok (lower name);
  personal_account = λ controller address. ok (codes "0xacc");
  nonce = λ controller account. ok 4;
  rules_of = λ account. ok (codes "0x1" ∷ []);
  get_rule = λ id. ok standing;
  payment_address = λ manager. ok (codes "rVault");
  executor_fee = λ manager. ok 100_000;
  fee_bips = λ manager. ok 25;
  minimum_fee = λ manager. ok 100_000;
  balance = λ address. ok 20_000_000;
}

abbrev pub contracts : ContractSet
contracts = record { fxrp = codes "0xf"; rule_registry = codes "0xr"; rule_executor = codes "0xe" }

abbrev pub memo : HashInstructionMemo
memo = record {
  memo_data = codes "0xFE0x000x000x77";
  payload = codes "0x0b" ++ 4 ∷ [];
  user_op_hash = codes "0x77";
  total_call_value = 0;
}

abbrev pub payment_of : ℕ → Payment
payment_of amount = record {
  account = codes "rUser";
  destination = codes "rVault";
  amount = amount;
  memo_data = to_xrpl_hex memo.memo_data;
}

to_create :
    prepare_create toy_viem world contracts (codes "rUser") weekly 10_000_000
    ≡ ok (payment_of 10_200_000, memo)
unfolding opened
to_create = refl

to_cancel :
    prepare_cancel toy_viem world contracts (codes "rUser") (codes "0x1")
    ≡ ok (payment_of 200_000, memo)
unfolding opened
to_cancel = refl

commitment_test : read_active_commitment world (codes "0xacc") none ≡ ok 15
unfolding opened
commitment_test = refl

prepare_create-ok_example :
    (controller : Text) × (account : Text) × (nonce : ℕ) × (other : ℕ) × (world.contract_by_name
        (codes "MasterAccountController")
      ≡ ok controller)
    × (world.personal_account controller (codes "rUser") ≡ ok account)
    × (world.nonce controller account ≡ ok nonce)
    × (read_active_commitment world account none ≡ ok other)
    × (calls : List Call) × (build_create_rule_instruction toy_viem weekly contracts account nonce
          (some (pos other))
        ≡ ok (calls, memo))
    × Funded world (codes "rUser") memo (payment_of 10_200_000)
prepare_create-ok_example =
    prepare_create-ok toy_viem world contracts (codes "rUser") weekly 10_000_000
      (payment_of 10_200_000) memo to_create

prepare_cancel-ok_example :
    (controller : Text) × (account : Text) × (rule : Rule) × (nonce : ℕ) × (remaining : ℕ)
    × (world.contract_by_name (codes "MasterAccountController") ≡ ok controller)
    × (world.personal_account controller (codes "rUser") ≡ ok account)
    × (world.get_rule (codes "0x1") ≡ ok rule)
    × (rule.active ≡ true)
    × (lower rule.account ≡ lower account)
    × (world.nonce controller account ≡ ok nonce)
    × (read_active_commitment world account (some (codes "0x1")) ≡ ok remaining)
    × (calls : List Call) × (build_cancel_rule_instruction toy_viem
          (codes "0x1")
          contracts
          account
          nonce
          (some (pos remaining))
        ≡ ok (calls, memo))
    × Funded world (codes "rUser") memo (payment_of 200_000)
prepare_cancel-ok_example =
    prepare_cancel-ok toy_viem world contracts (codes "rUser") (codes "0x1") (payment_of 200_000)
      memo to_cancel

abbrev fees : MintingFees
fees = record {
  destination = codes "rVault";
  executor_fee_uba = 100_000;
  fee_bips = 25;
  minimum_fee_uba = 100_000;
}
