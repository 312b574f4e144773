-- ===== src/Registry.antt =====
-- contracts/src/RuleRegistry.sol: the standing orders, as the services see them through calls. The
-- clock is an argument of each call. `id_of` is the hash of the caller and its nonce.
pub mod Caps
pub mod Accepts
pub mod History
mod Tests
use giroledger.Base.{
  ℕ, ◌+◌, ◌%◌, ◌^◌, Bool, true, false, ◌&&◌, ◌||◌, not, Option, none, some, List, [], ◌∷◌, ◌++◌,
  ltb, leb, ◌==◌, if◌then◌else◌, length, take, drop, keep,
}
use giroledger.Base.Int.{ℤ, pos, negsuc}
use giroledger.Base.Text.{Text, text_eq}
use giroledger.Base.Dict.{Dict, get, set}
use giroledger.Base.Result.{Result, ok, err, ◌>>=◌, ◌>>◌, throw_if, or_throw}
use giroledger.Rules.{Trigger, time, Rule, CreateRuleParams, hit_run_cap, hit_spend_cap}

pub data Revert : Type 0 where
  not_account not_executor rule_not_active rule_not_due cap_exceeded : Revert
  vault_not_allowed invalid_params trigger_not_enabled page_too_large unknown_rule bad_calldata :
      Revert

pub record Registry : Type 0 where
  pub rules : Dict Rule
  pub nonces : Dict ℕ
  pub rules_of : Dict (List Text)
  pub vault_allowed : Text → Bool
  pub all_rule_ids : List Text
  pub executor : Text

abbrev pub is_time : Trigger → Bool
is_time time = true
is_time _ = false

abbrev pub get_or {ℓ} : {V : Type ℓ} → V → Option V → V
get_or d none = d
get_or d (some v) = v

abbrev pub is_exhausted : Rule → Bool
is_exhausted r = hit_run_cap r || hit_spend_cap r

-- `_isDue`.
unfoldable pub rule_is_due : ℕ → Rule → Bool
rule_is_due now r =
    r.active && (is_time r.trigger && (not (ltb now r.next_run_at) && not (is_exhausted r)))

-- An id with no rule reads as the zero struct, which is not active.
unfoldable pub is_due : Registry → ℕ → Text → Bool
unfolding rule_is_due
is_due s now id = elim (get id s.rules) [ none ↦ false | some r ↦ rule_is_due now r ]

-- The rule that `createRule` stores. A start time of 0 means now.
abbrev pub new_rule : Text → ℕ → Text → CreateRuleParams → Rule
new_rule id now sender p = record {
  rule_id = id;
  account = sender;
  vault = p.vault;
  amount_per_run = p.amount_per_run;
  total_spend_cap = p.total_spend_cap;
  total_spent = 0;
  next_run_at = if p.start_at == 0 then now else p.start_at;
  interval_secs = p.interval_secs;
  max_runs = p.max_runs;
  runs_done = 0;
  threshold_price = p.threshold_price;
  trigger = p.trigger;
  active = true;
}

-- The widths of the parameters' fields: the decoder of the call's data reverts on what is out of them.
abbrev pub is_int128 : ℤ → Bool
is_int128 (pos n) = ltb n (2 ^ 127)
is_int128 (negsuc n) = ltb n (2 ^ 127)

abbrev pub fits_abi : CreateRuleParams → Bool
fits_abi p =
    ltb p.amount_per_run (2 ^ 128)
    && ltb p.total_spend_cap (2 ^ 128)
    && ltb p.interval_secs (2 ^ 32)
    && ltb p.max_runs 65_536
    && ltb p.start_at (2 ^ 64)
    && is_int128 p.threshold_price

unfoldable pub create_rule :
    (Text → ℕ → Text) → Registry → ℕ → Text → CreateRuleParams → Result Revert (Text × Registry)
create_rule id_of s now sender p = do
  throw_if (not (fits_abi p)) bad_calldata
  throw_if (not (s.vault_allowed p.vault)) vault_not_allowed
  throw_if (p.amount_per_run == 0) invalid_params
  throw_if (ltb p.total_spend_cap p.amount_per_run) cap_exceeded
  throw_if (ltb p.interval_secs 60 || ltb 31_536_000 p.interval_secs) invalid_params
  throw_if (not (is_time p.trigger)) trigger_not_enabled
  let nonce = get_or 0 (get sender s.nonces)
  let id = id_of sender nonce
  ok (
    id,
    record s {
      rules = set id (new_rule id now sender p) s.rules;
      nonces = set sender (nonce + 1) s.nonces;
      rules_of = set sender (get_or [] (get sender s.rules_of) ++ id ∷ []) s.rules_of;
      all_rule_ids = s.all_rule_ids ++ id ∷ [];
    },
  )

abbrev pub put_rule : Registry → Text → Rule → Registry
put_rule s id r = record s { rules = set id r s.rules }

unfoldable pub cancel_rule : Registry → Text → Text → Result Revert Registry
cancel_rule s sender id = do
  r ← or_throw (get id s.rules) unknown_rule
  throw_if (not (text_eq r.account sender)) not_account
  ok (if r.active then put_rule s id (record r { active = false }) else s)

-- What one run leaves of a rule: the counters move, and a rule with no room left is switched off.
unfoldable pub after_run : ℕ → ℕ → Rule → Rule
after_run now amount r =
    let ran : Rule = record r {
      total_spent = r.total_spent + amount;
      runs_done = (r.runs_done + 1) % 65_536;
      next_run_at = now + r.interval_secs;
    } in
    record ran { active = not (is_exhausted ran) }

unfoldable pub mark_executed : Registry → ℕ → Text → Text → ℕ → Result Revert Registry
mark_executed s now sender id amount = do
  throw_if (not (text_eq sender s.executor)) not_executor
  r ← or_throw (get id s.rules) unknown_rule
  throw_if (not r.active) rule_not_active
  throw_if (not (rule_is_due now r)) rule_not_due
  throw_if (not (amount == r.amount_per_run)) invalid_params
  throw_if (ltb r.total_spend_cap (r.total_spent + amount)) cap_exceeded
  ok (put_rule s id (after_run now amount r))

-- `dueRules`: the due rules of one window, and where the next window starts.
unfoldable pub due_rules : Registry → ℕ → ℕ → ℕ → Result Revert (List Text × ℕ)
due_rules s now offset limit = do
  throw_if (limit == 0 || ltb 200 limit) page_too_large
  let total = length s.all_rule_ids
  let end = if ltb total (offset + limit) then total else offset + limit
  ok (
      if leb total offset
      then ([], total)
      else (keep (is_due s now) (take limit (drop offset s.all_rule_ids)), end))
