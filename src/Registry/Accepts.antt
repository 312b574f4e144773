-- ===== src/Registry/Accepts.antt =====
-- When `createRule` of RuleRegistry.sol succeeds.
use giroledger.Base.{ℕ, ◌+◌, ◌≤◌, ◌<◌, ◌≡◌, true, some, [], ◌∷◌, ◌++◌, arith}
use giroledger.Base.Text.{Text, text_eq_refl}
use giroledger.Base.Dict.{get, set, get-set}
use giroledger.Base.Result.{ok}
use giroledger.Rules.{CreateRuleParams, time}
use giroledger.Registry.{Registry, create_rule, new_rule, get_or, fits_abi}

-- What `createRule` asks of its parameters.
pub record Fit (s : Registry) (p : CreateRuleParams) : Type 0 where
  pub allowed : s.vault_allowed p.vault ≡ true
  pub some_amount : 0 < p.amount_per_run
  pub within : p.amount_per_run ≤ p.total_spend_cap
  pub not_short : 60 ≤ p.interval_secs
  pub not_long : p.interval_secs ≤ 31_536_000
  pub on_time : p.trigger ≡ time
  pub in_widths : fits_abi p ≡ true

module _ (id_of : Text → ℕ → Text) (s : Registry) (now : ℕ) (sender : Text)
    (p : CreateRuleParams) where
  -- Every parameter that fits is accepted, and the rule is stored.
  pub create_rule-Fit :
      Fit s p
      → (id : Text) × (t : Registry) × (create_rule id_of s now sender p ≡ ok (id, t))
        × (get id t.rules ≡ some (new_rule id now sender p))
  unfolding create_rule
  create_rule-Fit f =
      let nonce = get_or 0 (get sender s.nonces) in
      let id = id_of sender nonce in
      (
        id,
        record s {
          rules = set id (new_rule id now sender p) s.rules;
          nonces = set sender (nonce + 1) s.nonces;
          rules_of = set sender (get_or [] (get sender s.rules_of) ++ id ∷ []) s.rules_of;
          all_rule_ids = s.all_rule_ids ++ id ∷ [];
        },
        ground arith,
        ground (arith, get-set id id (new_rule id now sender p) s.rules, text_eq_refl id),
      )

  -- What is accepted has its fields within their widths.
  pub create_rule-fits_abi :
      (id : Text) (t : Registry) → create_rule id_of s now sender p ≡ ok (id, t) → fits_abi p ≡ true
  unfolding create_rule
  create_rule-fits_abi id t h = ground arith
