-- ===== src/Commitment.antt =====
-- packages/shared/src/memo.ts: what the active rules of an account can still draw, and the account on
-- chain as the instructions and the executor move it. All rules of an account share one allowance.
pub mod Sums
pub mod Coverage
pub mod Reach
pub mod Calldata
mod Tests
use giroledger.Base.{
  ℕ, ◌+◌, ◌-◌, ◌≤◌, ◌≡◌, Bool, true, false, ◌&&◌, not, Option, none, some, List, [], ◌∷◌, ◌++◌, map,
  ltb, if◌then◌else◌,
}
use giroledger.Base.Text.{Text, lower, text_eq}
use giroledger.Rules.{Rule}
use giroledger.Registry.{new_rule, rule_is_due, after_run}
use giroledger.Rules.Status.{Sound}
use giroledger.Memo.{
  Call, ContractSet, FunctionCall, approve, create_rule, cancel_rule, execute_user_op,
}

-- What one rule can still draw; a corrupt read cannot make it negative.
abbrev pub remaining : Rule → ℕ
remaining r = if ltb r.total_spent r.total_spend_cap then r.total_spend_cap - r.total_spent else 0

abbrev pub is_excluded : Option Text → Rule → Bool
is_excluded none r = false
is_excluded (some id) r = text_eq (lower r.rule_id) (lower id)

-- The loop of `sumActiveCommitment`.
pub sum_from : Option Text → ℕ → List Rule → ℕ
sum_from exclude total [] = total
sum_from exclude total (r ∷ rs) =
    sum_from exclude
      (if r.active && not (is_excluded exclude r) then total + remaining r else total) rs

unfoldable pub sum_active_commitment : List Rule → Option Text → ℕ
unfolding sum_from
sum_active_commitment rules exclude = sum_from exclude 0 rules

-- A personal account: its rules in the registry, and what it allows the executor to draw.
pub record Account : Type 0 where
  pub rules : List Rule
  pub allowance : ℕ

abbrev pub switch_off : Text → List Rule → List Rule
switch_off id [] = []
switch_off id (r ∷ rs) =
    (if is_excluded (some id) r then record r { active = false } else r) ∷ switch_off id rs

-- The calls of a user operation on chain. `decode` reads the calldata; `approve` sets the allowance,
-- and a call of anything else than the two contracts leaves the account as it is.
module _ (decode : Text → Option FunctionCall) (contracts : ContractSet) (now : ℕ)
    (sender id : Text) where
  abbrev pub apply_token : FunctionCall → Account → Account
  apply_token (approve spender amount) a =
      if text_eq spender contracts.rule_executor then record a { allowance = amount } else a
  apply_token _ a = a

  abbrev pub apply_registry : FunctionCall → Account → Account
  apply_registry (create_rule p) a = record a { rules = a.rules ++ new_rule id now sender p ∷ [] }
  apply_registry (cancel_rule rule_id) a = record a { rules = switch_off rule_id a.rules }
  apply_registry _ a = a

  abbrev pub apply_decoded : Option FunctionCall → Text → Account → Account
  apply_decoded none target a = a
  apply_decoded (some f) target a =
      if text_eq target contracts.fxrp
      then apply_token f a
      else (if text_eq target contracts.rule_registry then apply_registry f a else a)

  abbrev pub apply_calls : List Call → Account → Account
  apply_calls [] a = a
  apply_calls (c ∷ cs) a = apply_calls cs (apply_decoded (decode c.payload) c.target a)
