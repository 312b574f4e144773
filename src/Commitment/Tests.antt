-- ===== src/Commitment/Tests.antt =====
-- An encoder whose calldata is read back, and an account with two rules at it.
use giroledger.Base.{ℕ, ◌≤◌, ◌≡◌, refl, true, none, some, List, [], ◌∷◌, arith}
use giroledger.Base.Int.{pos}
use giroledger.Base.Text.{Text, codes}
use giroledger.Base.Result.{ok, err}
use giroledger.Rules.{Rule, time, CreateRuleParams}
use giroledger.Registry.{new_rule, rule_is_due, after_run}
use giroledger.Memo.{
  Call, ContractSet, Viem, integer_out_of_range, build_create_rule_calls, build_cancel_rule_calls,
}
use giroledger.Commitment.Calldata.{to_calldata, from_calldata, read_back}
use giroledger.Commitment.{sum_active_commitment, Account, apply_calls}
use giroledger.Commitment.Coverage.{
  Decodes, build_create_rule_calls-sum_active_commitment,
  build_cancel_rule_calls-sum_active_commitment,
}
use giroledger.Commitment.Reach.{
  created, ran, Reach, start, later, Covered, Reach-Covered, Reach-amount_per_run,
}

abbrev toy_viem : Viem
toy_viem = record {
  encode_function_data = to_calldata;
  encode_user_op = λ op. ok op.sender;
  keccak256 = λ t. t;
  to_hex = λ n size. err integer_out_of_range;
  concat_hex = λ ts. [];
}

abbrev contracts : ContractSet
contracts = record { fxrp = codes "0xf"; rule_registry = codes "0xr"; rule_executor = codes "0xe" }

toy_viem-Decodes : Decodes toy_viem from_calldata contracts
toy_viem-Decodes = record { encoded = read_back; apart = refl }

abbrev weekly : CreateRuleParams
weekly = record {
  vault = codes "0xv";
  amount_per_run = 5;
  total_spend_cap = 17;
  interval_secs = 604_800;
  max_runs = 2;
  trigger = time;
  start_at = 0;
  threshold_price = pos 0;
}

abbrev owner : Text
owner = codes "0xa"

abbrev first_rule : Rule
first_rule = new_rule (codes "0x1") 50 owner weekly

abbrev one_rule : Account
one_rule = record { rules = first_rule ∷ []; allowance = 17 }

abbrev creation : ℕ → List Call
creation amount =
    record { target = codes "0xf"; value = 0; payload = 0 ∷ amount ∷ codes "0xe" }
    ∷ record {
      target = codes "0xr";
      value = 0;
      payload = 1 ∷ 5 ∷ 17 ∷ 604_800 ∷ 2 ∷ 0 ∷ 0 ∷ 0 ∷ 0 ∷ codes "0xv";
    }
    ∷ []

abbrev cancellation : List Call
cancellation =
    record { target = codes "0xr"; value = 0; payload = 2 ∷ codes "0x1" }
    ∷ record { target = codes "0xf"; value = 0; payload = 0 ∷ 0 ∷ codes "0xe" }
    ∷ []

built :
    build_create_rule_calls toy_viem weekly contracts (pos (sum_active_commitment [] none))
    ≡ ok (creation 17)
unfolding build_create_rule_calls sum_active_commitment
built = refl

built_again :
    build_create_rule_calls toy_viem weekly contracts
      (pos (sum_active_commitment (first_rule ∷ []) none))
    ≡ ok (creation 34)
unfolding build_create_rule_calls sum_active_commitment
built_again = refl

built_off :
    build_cancel_rule_calls toy_viem
      (codes "0x1")
      contracts
      (pos (sum_active_commitment (first_rule ∷ []) (some (codes "0x1"))))
    ≡ ok cancellation
unfolding build_cancel_rule_calls sum_active_commitment
built_off = refl

build_create_rule_calls-sum_active_commitment_example :
    let b = apply_calls from_calldata contracts 60 owner (codes "0x2") (creation 34) one_rule in
    b.allowance ≡ sum_active_commitment b.rules none
build_create_rule_calls-sum_active_commitment_example =
    build_create_rule_calls-sum_active_commitment toy_viem from_calldata contracts toy_viem-Decodes
      weekly (creation 34) 60 owner (codes "0x2") one_rule built_again

build_cancel_rule_calls-sum_active_commitment_example :
    let b = apply_calls from_calldata contracts 60 owner [] cancellation one_rule in
    b.allowance ≡ sum_active_commitment b.rules none
build_cancel_rule_calls-sum_active_commitment_example =
    build_cancel_rule_calls-sum_active_commitment toy_viem from_calldata contracts toy_viem-Decodes
      (codes "0x1") cancellation 60 owner [] one_rule built_off

-- The account after its first rule, created and run once.
one_rule-Reach : Reach toy_viem from_calldata contracts one_rule
one_rule-Reach = later (start {allowance = 3}) (
    created weekly (creation 17) 50 owner (codes "0x1") (omega arith) (omega arith) (omega arith)
      built)

ready : rule_is_due 60 first_rule ≡ true
unfolding rule_is_due
ready = refl

abbrev run_once : Account
run_once = record { rules = after_run 60 5 first_rule ∷ []; allowance = 12 }

run_once-Reach : Reach toy_viem from_calldata contracts run_once
run_once-Reach = later one_rule-Reach (ran [] [] first_rule 60 refl ready (omega arith))

Reach-Covered_example : Covered run_once
Reach-Covered_example =
    Reach-Covered toy_viem from_calldata contracts toy_viem-Decodes run_once-Reach

Reach-amount_per_run_example : first_rule.amount_per_run ≤ one_rule.allowance
Reach-amount_per_run_example =
    Reach-amount_per_run toy_viem from_calldata contracts toy_viem-Decodes one_rule [] [] first_rule
      60 one_rule-Reach refl ready
