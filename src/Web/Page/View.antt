-- ===== src/Web/Page/View.antt =====
-- What the page of apps/web/src/routes/app.tsx computes of its state to show: the rule that the input
-- makes, the instructions, the quotes and the payments.
use giroledger.Base.{
  ℕ, zero, suc, ◌-◌, ◌*◌, max, Bool, true, false, not, Option, none, some, List, ltb, if◌then◌else◌,
  get_elem?,
}
use giroledger.Base.Int.{pos, negsuc}
use giroledger.Base.Text.{Text, codes}
use giroledger.Base.Result.{Result, ok, err, ◌>>=◌}
use giroledger.Rules.{CreateRuleParams, time}
use giroledger.Flow.{DirectMintingQuote, quote_for}
use giroledger.Memo.{
  Viem, Call, ContractSet, HashInstructionMemo, build_create_rule_instruction,
  build_cancel_rule_instruction, to_xrpl_hex,
}
use giroledger.Commitment.{sum_active_commitment}
use giroledger.Web.Numbers.{Number, nan, infinite, whole, fraction, number}
use giroledger.Web.Format.{to_units}
use giroledger.Web.Chain.{VaultInfo, Resolved}
use giroledger.Web.Page.{Env, Page, decimals_of}

-- `BigInt(Math.max(1, Number(runs) || 1))`, which throws on what is no whole number.
unfoldable pub run_count : Number → Result Text ℕ
run_count nan = ok 1
run_count (infinite true) = ok 1
run_count (infinite false) = err (codes "RangeError")
run_count (whole (pos n)) = ok (max 1 n)
run_count (whole (negsuc n)) = ok 1
run_count (fraction true n) = ok 1
run_count (fraction false zero) = ok 1
run_count (fraction false (suc n)) = err (codes "RangeError")

-- `params` for a vault and an amount per run.
abbrev pub params_for : Page → VaultInfo → ℕ → ℕ → CreateRuleParams
params_for p vault per_run n = record {
  vault = vault.address;
  amount_per_run = per_run;
  total_spend_cap = per_run * n;
  interval_secs = p.interval_secs;
  max_runs = n;
  trigger = time;
  start_at = 0;
  threshold_price = pos 0;
}

abbrev pub with_runs : Page → VaultInfo → ℕ → Result Text (Option CreateRuleParams)
with_runs p vault per_run = do
  n ← run_count (number p.runs)
  ok (some (params_for p vault per_run n))

-- `params`.
unfoldable pub params : Page → Result Text (Option CreateRuleParams)
params p = elim (get_elem? p.vaults p.vault_idx) [
  | none ↦ ok none
  | some vault ↦ (elim (to_units p.amount (decimals_of p)) [
    | none ↦ err (codes "SyntaxError")
    | some (negsuc n) ↦ ok none
    | some (pos zero) ↦ ok none
    | some (pos (suc n)) ↦ with_runs p vault (suc n)
  ])
]

abbrev pub ok_or_none {ℓ} : {E : Type 0} {A : Type ℓ} → Result E A → Option A
ok_or_none (ok a) = some a
ok_or_none (err e) = none

-- `stopping && fxrp && resolved && REGISTRY && EXECUTOR`, and the contracts.
abbrev pub contracts_of : Env → Page → Option (ContractSet × Resolved)
contracts_of env p = elim p.fxrp [
  | none ↦ none
  | some t ↦ (elim p.resolved [
    | none ↦ none
    | some r ↦ (elim env.registry [
      | none ↦ none
      | some registry ↦ (elim env.executor [
        | none ↦ none
        | some executor ↦
            some
              (record { fxrp = t.address; rule_registry = registry; rule_executor = executor }, r)
      ])
    ])
  ])
]

module _ (env : Env) (v : Viem) where
  -- `instruction`; the builder's errors are caught.
  unfoldable pub instruction :
      Page → Option CreateRuleParams → Option (List Call × HashInstructionMemo)
  instruction p none = none
  instruction p (some wanted) = elim (contracts_of env p) [
    | none ↦ none
    | some (contracts, r) ↦ ok_or_none (
        build_create_rule_instruction v wanted contracts r.account r.nonce
          (some (pos (sum_active_commitment p.rules none))))
  ]

  -- `cancelInstruction`.
  unfoldable pub cancel_instruction : Page → Option (List Call × HashInstructionMemo)
  cancel_instruction p = elim p.stopping [
    | none ↦ none
    | some id ↦ (elim (contracts_of env p) [
      | none ↦ none
      | some (contracts, r) ↦ ok_or_none (
          build_cancel_rule_instruction v id contracts r.account r.nonce
            (some (pos (sum_active_commitment p.rules (some id)))))
    ])
  ]

-- What the rule may spend and the account does not hold.
abbrev pub shortfall : Page → CreateRuleParams → ℕ
shortfall p wanted =
    let held : ℕ = elim p.balance [ none ↦ 0 | some b ↦ b ] in
    if ltb held wanted.total_spend_cap then wanted.total_spend_cap - held else 0

-- `createQuote` and `cancelQuote`.
unfoldable pub create_quote : Page → Option CreateRuleParams → Option DirectMintingQuote
create_quote p none = none
create_quote p (some wanted) = elim p.fees [
  | none ↦ none
  | some f ↦ some (quote_for f (shortfall p wanted))
]

unfoldable pub cancel_quote : Page → Option DirectMintingQuote
cancel_quote p = elim p.fees [ none ↦ none | some f ↦ some (quote_for f 0) ]

-- What the page asks the visitor to pay: the destination, the drops and the memo.
pub record Shown : Type 0 where
  pub destination : Text
  pub amount_drops : ℕ
  pub memo_hex : Text

pub data Step3 : Type 0 where
  not_configured resolve_first reading_fees : Step3
  payment : Shown → Step3

abbrev pub shown :
    Option DirectMintingQuote → Option (List Call × HashInstructionMemo) → Option Shown
shown none i = none
shown (some q) none = none
shown (some q) (some (calls, memo)) = some (record {
  destination = q.destination;
  amount_drops = q.amount_uba;
  memo_hex = to_xrpl_hex memo.memo_data;
})

abbrev pub configured : Env → Bool
configured env = elim env.registry [
  | none ↦ false
  | some r ↦ (elim env.executor [ none ↦ false | some e ↦ true ])
]

module _ (env : Env) (v : Viem) where
  -- Step 3 of the page.
  unfoldable pub step3 : Page → Result Text Step3
  step3 p = do
    wanted ← params p
    ok (
        if not (configured env) then not_configured else (elim p.resolved [
          | none ↦ resolve_first
          | some r ↦ (elim (shown (create_quote p wanted) (instruction env v p wanted)) [
            | none ↦ reading_fees
            | some s ↦ payment s
          ])
        ]))

  -- The payment that stops a rule, where one is shown.
  unfoldable pub stop_panel : Page → Option Shown
  stop_panel p = elim p.resolved [
    | none ↦ none
    | some r ↦ shown (cancel_quote p) (cancel_instruction env v p)
  ]
