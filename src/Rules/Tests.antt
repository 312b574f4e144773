-- ===== src/Rules/Tests.antt =====
-- The status of one rule.
use giroledger.Base.{◌≡◌, refl, inr, true, arith}
use giroledger.Base.Int.{pos}
use giroledger.Base.Text.{codes}
use giroledger.Base.Result.{ok, err}
use giroledger.Web.Numbers.{whole}
use giroledger.Rules.Params.{RawParams, safe_parse, Valid, safe_parse-Valid}
use giroledger.Rules.{Rule, CreateRuleParams, price_below, time, due, derive_status, remaining_runs}
use giroledger.Rules.Status.{Sound}

-- Two of at most four runs of 5 were made, under a cap of 17: one more fits.
abbrev half_way : Rule
half_way = record {
  rule_id = codes "0x1";
  account = codes "0xa";
  vault = codes "0xv";
  amount_per_run = 5;
  total_spend_cap = 17;
  total_spent = 10;
  next_run_at = 100;
  interval_secs = 60;
  max_runs = 4;
  runs_done = 2;
  threshold_price = pos 0;
  trigger = time;
  active = true;
}

half_way-Sound : Sound half_way
half_way-Sound = record {
  some_amount = omega arith;
  within_cap = omega arith;
  run_width = omega arith;
  within_runs = inr (omega arith);
}

half_way_test : (derive_status half_way 100 ≡ due) × (remaining_runs half_way ≡ 1)
unfolding derive_status remaining_runs
half_way_test = (refl, refl)

abbrev raw : RawParams
raw = record {
  vault = codes "0x00112233445566778899aAbBcCdDeEfF00112233";
  amount_per_run = pos 5;
  total_spend_cap = pos 17;
  interval_secs = whole (pos 60);
  max_runs = whole (pos 3);
  trigger = whole (pos 1);
  start_at = pos 0;
  threshold_price = pos 9;
}

abbrev below : CreateRuleParams
below = record {
  vault = raw.vault;
  amount_per_run = 5;
  total_spend_cap = 17;
  interval_secs = 60;
  max_runs = 3;
  trigger = price_below;
  start_at = 0;
  threshold_price = pos 9;
}

parsed : safe_parse raw ≡ ok below
unfolding safe_parse
parsed = refl

unpriced :
    safe_parse (record raw { threshold_price = pos 0 })
    ≡ err (codes "price triggers need a positive thresholdPrice")
unfolding safe_parse
unpriced = refl

safe_parse-Valid_example : Valid below
safe_parse-Valid_example = safe_parse-Valid raw below parsed
