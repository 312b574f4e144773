-- ===== src/Web/Page.antt =====
-- The page of apps/web/src/routes/app.tsx: its state, what its handlers and effects do to it, and what
-- it computes to show. A handler that waits is taken as a whole, with no other event in between. A
-- `Result` that is an error in what it computes is an exception while it renders.
pub mod View
pub mod Params
pub mod Contracts
pub mod Payment
pub mod Stops
pub mod Resolve
pub mod Stale
use giroledger.Base.{
  ℕ, zero, suc, ◌+◌, ◌-◌, ◌*◌, max, Bool, true, false, not, ◌&&◌, ◌||◌, Option, none, some, List,
  [], ◌∷◌, ltb, if◌then◌else◌, get_elem?, length, any,
}
use giroledger.Base.Int.{ℤ, pos, negsuc}
use giroledger.Base.Text.{Text, codes, text_eq}
use giroledger.Base.Result.{Result, ok, err, ◌>>=◌}
use giroledger.Rules.{Rule, CreateRuleParams, time}
use giroledger.Flow.{MintingFees, DirectMintingQuote, quote_for}
use giroledger.Memo.{
  Viem, Call, ContractSet, HashInstructionMemo, build_create_rule_instruction,
  build_cancel_rule_instruction, to_xrpl_hex,
}
use giroledger.Commitment.{sum_active_commitment}
use giroledger.Web.Numbers.{Number, nan, infinite, whole, fraction, number, trim}
use giroledger.Web.Format.{to_units, looks_like_xrpl_address}
use giroledger.Web.History.{Logs, ExecutionHistory, get_executions}
use giroledger.Web.Chain.{
  Node, VaultInfo, Fxrp, Resolved, resolve_personal_account, get_vaults, get_fxrp, get_minting_fees,
  get_rules_for, first_allowed,
}

-- The addresses from the environment; an empty text counts as none.
pub record Env : Type 0 where
  pub registry : Option Text
  pub executor : Option Text
  pub vault : Option Text

pub record Page : Type 0 where
  pub xrpl : Text
  pub resolved : Option Resolved
  pub resolving : Bool
  pub error : Option Text
  pub vaults : List VaultInfo
  pub fxrp : Option Fxrp
  pub balance : Option ℕ
  pub rules : List Rule
  pub history : Option ExecutionHistory
  pub fees : Option MintingFees
  pub stopping : Option Text
  pub amount : Text
  pub runs : Text
  pub interval_secs : ℕ
  pub vault_idx : ℕ

abbrev pub intervals : List ℕ
intervals = 120 ∷ 3_600 ∷ 86_400 ∷ 604_800 ∷ []

abbrev pub opened : Page
opened = record {
  xrpl = [];
  resolved = none;
  resolving = false;
  error = none;
  vaults = [];
  fxrp = none;
  balance = none;
  rules = [];
  history = none;
  fees = none;
  stopping = none;
  amount = codes "10";
  runs = codes "10";
  interval_secs = 86_400;
  vault_idx = 0;
}

abbrev pub decimals_of : Page → ℕ
decimals_of p = elim p.fxrp [ none ↦ 6 | some t ↦ t.decimals ]

abbrev pub valid : Page → Bool
valid p = looks_like_xrpl_address p.xrpl

-- What was awaited: the handler goes on, or its `catch` runs.
abbrev pub await {ℓ κ} : {A : Type ℓ} {B : Type κ} → Result Text A → (Text → B) → (A → B) → B
await (ok a) caught next = next a
await (err e) caught next = caught e

abbrev pub failed : Page → Text → Page
failed p e = record p { error = some e; resolved = none; resolving = false }

module _ (env : Env) (node : Node) (logs : Logs) where
  -- The effect on mount. No state changes before all three answers are there.
  unfoldable pub mounted : Page → Page
  mounted p =
      await (get_vaults node env.registry env.vault) (λ e. record p { error = some e })
        λ vs.
          await (get_fxrp node) (λ e. record p { error = some e })
            λ token.
              await (get_minting_fees node) (λ e. record p { error = some e })
                λ f. record p {
                  vaults = vs;
                  fxrp = some token;
                  fees = some f;
                  vault_idx = elim (first_allowed vs) [ none ↦ p.vault_idx | some n ↦ n ];
                }

  -- The balance is read only where the token is known, and stays as it was otherwise.
  abbrev pub read_balance : Page → Resolved → Result Text (Option ℕ)
  read_balance p r = elim p.fxrp [
    | none ↦ ok p.balance
    | some t ↦ do b ← node.balance_of t.address r.account; ok (some b)
  ]

  -- `resolve`.
  unfoldable pub resolve : Page → Page
  resolve p =
      let p1 : Page = record p { resolving = true; error = none } in
      let whole = await (resolve_personal_account node (trim p.xrpl)) (failed p1) λ r.
        let p2 : Page = record p1 { resolved = some r } in
        await (read_balance p r) (failed p2) λ b.
          let p3 : Page = record p2 { balance = b } in
          await (get_rules_for node env.registry r.account) (failed p3) λ rs.
            let p4 : Page = record p3 { rules = rs } in
            await (get_executions logs env.executor r.account 60) (failed p4)
              λ h. record p4 { history = some h; resolving = false } in
      if valid p then whole else p

  -- The states that `resolve` leaves at its waits, and at its end: each of them is rendered.
  unfoldable pub rendered : Page → List Page
  rendered p =
      let p1 : Page = record p { resolving = true; error = none } in
      let states =
        p1
        ∷ await (resolve_personal_account node (trim p.xrpl)) (λ e. failed p1 e ∷ [])
            λ r.
              let p2 : Page = record p1 { resolved = some r } in
              p2
              ∷ await (read_balance p r) (λ e. failed p2 e ∷ [])
                  λ b.
                    let p3 : Page = record p2 { balance = b } in
                    p3
                    ∷ await (get_rules_for node env.registry r.account) (λ e. failed p3 e ∷ [])
                        λ rs.
                          let p4 : Page = record p3 { rules = rs } in
                          p4
                          ∷ await (get_executions logs env.executor r.account 60)
                              (λ e. failed p4 e ∷ [])
                              λ h. record p4 { history = some h; resolving = false } ∷ [] in
      if valid p then states else []

-- The stop button of a rule.
abbrev pub toggle_stop : Page → Text → Page
toggle_stop p id = record p {
  stopping = elim p.stopping [
    | none ↦ some id
    | some cur ↦ (if text_eq cur id then none else some id)
  ];
}
