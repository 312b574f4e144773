-- ===== src/Rules.antt =====
-- packages/shared/src/types.ts: the parameters of a rule, a rule as read back from the registry, the
-- status shown for it and the runs that it has left. Amounts and times are the bigints of the source,
-- which the registry keeps unsigned; `threshold_price` is signed.
pub mod Status
pub mod Params
mod Tests
use giroledger.Base.{
  ℕ, ◌+◌, ◌-◌, ◌/◌, Bool, true, false, ◌&&◌, ◌||◌, not, ltb, leb, ◌==◌, if◌then◌else◌, min,
}
use giroledger.Base.Int.{ℤ}
use giroledger.Base.Text.{Text}

pub data Trigger : Type 0 where
  time price_below price_above : Trigger

pub record CreateRuleParams : Type 0 where
  pub vault : Text
  pub amount_per_run : ℕ
  pub total_spend_cap : ℕ
  pub interval_secs : ℕ
  pub max_runs : ℕ
  pub trigger : Trigger
  pub start_at : ℕ
  pub threshold_price : ℤ

pub record Rule : Type 0 where
  pub rule_id : Text
  pub account : Text
  pub vault : Text
  pub amount_per_run : ℕ
  pub total_spend_cap : ℕ
  pub total_spent : ℕ
  pub next_run_at : ℕ
  pub interval_secs : ℕ
  pub max_runs : ℕ
  pub runs_done : ℕ
  pub threshold_price : ℤ
  pub trigger : Trigger
  pub active : Bool

pub data RuleStatus : Type 0 where
  pending active due exhausted cancelled : RuleStatus

-- `hitRunCap` and `hitSpendCap`.
abbrev pub hit_run_cap : Rule → Bool
hit_run_cap r = ltb 0 r.max_runs && leb r.max_runs r.runs_done

abbrev pub hit_spend_cap : Rule → Bool
hit_spend_cap r = ltb r.total_spend_cap (r.total_spent + r.amount_per_run)

unfoldable pub derive_status : Rule → ℕ → RuleStatus
derive_status r now_secs =
    if hit_run_cap r || hit_spend_cap r
    then exhausted
    else (if not r.active then cancelled else (if ltb now_secs r.next_run_at then active else due))

-- The bigint division throws on a zero `amountPerRun`, and both subtractions can be negative: on a
-- rule that keeps its invariants (`Status.Sound`) neither happens.
unfoldable pub remaining_runs : Rule → ℕ
remaining_runs r =
    let by_cap = (r.total_spend_cap - r.total_spent) / r.amount_per_run in
    if r.max_runs == 0 then by_cap else min by_cap (r.max_runs - r.runs_done)
