-- ===== src/Keeper/Tests.antt =====
-- Runs of the keeper on a registry of two rules, and the theorems at these inputs.
use giroledger.Base.{
  ℕ, ◌<◌, ◌≡◌, refl, ◌⊎◌, true, false, not, ◌&&◌, none, some, arith, List, [], ◌∷◌, length, take,
}
use giroledger.Base.Int.{pos}
use giroledger.Base.Text.{Text, codes}
use giroledger.Base.Dict.{has}
use giroledger.Base.Result.{Result, ok, err}
use giroledger.Rules.{Rule, time}
use giroledger.Registry.{Registry, due_rules, is_due, rule_is_due, Revert}
use giroledger.Keeper.{
  Config, Node, Receipt, Event, deposited, execution_skipped, tick, collect_due, take_page, trim,
  run_due, submit_batch, execute_single, settle_batch, quarantine_still_due, strike,
}
use giroledger.Keeper.Errors.{Thrown, plain, classify, backoff_ms}
use giroledger.Keeper.Monad.{Keeper, Reason, Submission, batch}
use giroledger.Keeper.Paging.{Serves, free_due, collect_due_lem}
use giroledger.Keeper.Tick.{Permitted, tick-sends}
use giroledger.Keeper.Strikes.{Inv, tick-Inv}
use giroledger.Keeper.Loop.{Loop, loop_round, after_tick, loop_round-backoff}

opened : Unit {0}
unfolding tick collect_due take_page trim run_due submit_batch execute_single settle_batch
    quarantine_still_due strike classify due_rules is_due rule_is_due loop_round after_tick
    backoff_ms
opened = tt

abbrev rule_of : Text → Rule
rule_of id = record {
  rule_id = id;
  account = codes "0xa";
  vault = codes "0xv";
  amount_per_run = 5;
  total_spend_cap = 20;
  total_spent = 0;
  next_run_at = 100;
  interval_secs = 60;
  max_runs = 0;
  runs_done = 0;
  threshold_price = pos 0;
  trigger = time;
  active = true;
}

abbrev first_id : Text
first_id = codes "0x1"

abbrev second_id : Text
second_id = codes "0x2"

abbrev third_id : Text
third_id = codes "0x3"

abbrev three_rules : Registry
three_rules = record {
  rules =
      (first_id, rule_of first_id)
      ∷ (second_id, rule_of second_id)
      ∷ (third_id, rule_of third_id)
      ∷ [];
  nonces = [];
  rules_of = [];
  vault_allowed = λ v. true;
  all_rule_ids = first_id ∷ second_id ∷ third_id ∷ [];
  executor = codes "0xe";
}

abbrev answer : Result Revert (List Text × ℕ) → Result Thrown (List Text × ℕ)
answer (ok a) = ok a
answer (err e) = err (plain (codes "reverted"))

abbrev mined : List Event → Receipt
mined events = record { hash = codes "0xt"; success = true; events = events }

-- The registry at time 100, and an executor that skips the third rule.
abbrev registry_node : Node
registry_node = record {
  due_rules = λ offset limit. answer (due_rules three_rules 100 offset limit);
  total_rules = λ offset. ok (length three_rules.all_rule_ids);
  is_due = λ id. ok (is_due three_rules 100 id);
  simulate_execute = λ id gas.
      err (record { revert_name = some (codes "CapExceeded"); message = codes "reverted" });
  simulate_batch = λ ids gas. ok 1;
  send_execute = λ id. ok (mined (deposited id ∷ []));
  send_batch = λ ids gas. ok (mined (deposited first_id ∷ execution_skipped third_id ∷ []));
}

registry_node-Serves : Serves registry_node three_rules 100
registry_node-Serves = record {
  pages = λ offset limit ids next h. rw h refl;
  total = λ offset. refl;
}

abbrev config_of : ℕ → Config
config_of poll = record {
  poll_interval_ms = poll;
  max_batch_size = 10;
  gas_per_rule = 1000;
  gas_batch_overhead = 500;
  max_tx_gas = 10_000;
  max_noop_strikes = 3;
}

abbrev fresh : Keeper
fresh = record {
  health = record {
    started_at = 0;
    last_tick_at = none;
    last_success_at = none;
    last_error = none;
    pending_due = 0;
    executed = 0;
    quarantined = 0;
    consecutive_failures = 0;
  };
  quarantine = [];
  noop_strikes = [];
  sent = [];
}

-- The second rule is in quarantine.
abbrev held : Keeper
held = record fresh {
  health = record (fresh.health) { quarantined = 1 };
  quarantine = (second_id, Reason.permanent_error (codes "CapExceeded")) ∷ [];
}

held-Inv : Inv (config_of 30_000) held
held-Inv = record { counted = refl; struck = tt }

-- The batch of the two free rules: one deposits, and the other fails for good and is taken out.
tick_test :
    let k = (tick 5 registry_node (config_of 30_000) held).0 in
    (k.sent ≡ batch (first_id ∷ third_id ∷ []) 2500 ∷ [])
    × (has third_id k.quarantine ≡ true)
    × (k.health.executed ≡ 1)
    × (k.health.quarantined ≡ 2)
unfolding opened
tick_test = (refl, refl, refl, refl)

collect_due_lem_example :
    collect_due 5 registry_node (config_of 30_000) held [] 0
    ≡ ok (some (take 10 (free_due three_rules 100 held three_rules.all_rule_ids)))
collect_due_lem_example =
    collect_due_lem registry_node three_rules 100 (config_of 30_000) held registry_node-Serves 5
      (omega arith) (omega arith)

tick-sends_example :
    ((tick 5 registry_node (config_of 30_000) held).0.sent ≡ [])
    ⊎ ((tx : Submission) × ((tick 5 registry_node (config_of 30_000) held).0.sent ≡ tx ∷ [])
        × Permitted (config_of 30_000) held tx)
tick-sends_example = tick-sends 5 registry_node (config_of 30_000) held (omega arith)

tick-Inv_example :
    Inv (config_of 30_000) (tick 5 registry_node (config_of 30_000) held).0
    × ((has second_id held.quarantine
          && not (has second_id (tick 5 registry_node (config_of 30_000) held).0.quarantine))
        ≡ false)
tick-Inv_example = tick-Inv 5 registry_node (config_of 30_000) held second_id held-Inv

-- A node that is out of reach.
abbrev no_node : Node
no_node = record registry_node { due_rules = λ offset limit. err (plain (codes "timeout")) }

abbrev idle : Loop
idle = record { keeper = fresh; failures = 2 }

failed : 0 < (loop_round 5 no_node (config_of 120_000) 1 2 1 2 idle).0.failures
unfolding opened
failed = omega arith

loop_round-backoff_example : (loop_round 5 no_node (config_of 120_000) 1 2 1 2 idle).1 < 120_000
loop_round-backoff_example =
    loop_round-backoff 5 no_node (config_of 120_000) 1 2 1 2 idle (omega arith) (omega arith)
      (omega arith) failed
