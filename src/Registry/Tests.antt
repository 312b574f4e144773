-- ===== src/Registry/Tests.antt =====
-- A registry that takes one rule and runs it.
use giroledger.Base.{List, some, ℕ, ◌≡◌, refl, ◌↔◌, true, false, [], ◌∷◌, ◌++◌}
use giroledger.Base.Int.{pos}
use giroledger.Base.Text.{Text, codes}
use giroledger.Base.Dict.{get}
use giroledger.Rules.{Rule, CreateRuleParams, time, due, derive_status}
use giroledger.Rules.Status.{Sound}
use giroledger.Registry.{
  Registry, rule_is_due, create_rule, mark_executed, cancel_rule, new_rule, after_run,
}
use giroledger.Registry.History.{Call, creates, cancels, runs, apply, apply_all, apply_all-Sound}
use giroledger.Registry.Caps.{derive_status-rule_is_due}

abbrev weekly : CreateRuleParams
weekly = record {
  vault = codes "0xv";
  amount_per_run = 5;
  total_spend_cap = 17;
  interval_secs = 604_800;
  max_runs = 2;
  trigger = time;
  start_at = 0;
  threshold_price = pos 0;
}

abbrev id_of : Text → ℕ → Text
id_of sender nonce = sender ++ nonce ∷ []

abbrev owner : Text
owner = codes "0xa"

abbrev id : Text
id = id_of owner 0

abbrev empty : Registry
empty = record {
  rules = [];
  nonces = [];
  rules_of = [];
  vault_allowed = λ v. true;
  all_rule_ids = [];
  executor = codes "0xe";
}

abbrev stored : Rule
stored = new_rule id 50 owner weekly

abbrev one_rule : Registry
one_rule = record empty {
  rules = (id, stored) ∷ [];
  nonces = (owner, 1) ∷ [];
  rules_of = (owner, id ∷ []) ∷ [];
  all_rule_ids = id ∷ [];
}

derive_status-rule_is_due_example : (derive_status stored 60 ≡ due) ↔ (rule_is_due 60 stored ≡ true)
derive_status-rule_is_due_example = derive_status-rule_is_due stored 60 refl

-- A creation, a run by the keeper, a run that reverts, and a cancellation.
abbrev a_week : List Call
a_week =
    creates 50 owner weekly
    ∷ runs 60 (codes "0xe") id 5
    ∷ runs 61 (codes "0xe") id 5
    ∷ cancels owner id
    ∷ []

after_a_week :
    get id (apply_all id_of empty a_week).rules
    ≡ some (record (after_run 60 5 stored) { active = false })
unfolding apply create_rule mark_executed cancel_rule rule_is_due after_run
after_a_week = refl

apply_all-Sound_example : Sound (record (after_run 60 5 stored) { active = false })
apply_all-Sound_example =
    apply_all-Sound id_of empty a_week id (record (after_run 60 5 stored) { active = false }) refl
      after_a_week
