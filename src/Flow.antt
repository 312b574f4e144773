-- ===== src/Flow.antt =====
-- apps/operator/src/createRule.ts and cancelRule.ts up to the payment, with the fees of
-- packages/shared/src/directMinting.ts and the quote of apps/web/src/lib/flare.ts. What the chain and
-- the ledger answer is the parameter `World`; every read may throw. Amounts are in drops: the division
-- to XRP and the multiplication back around the payment are left out.
pub mod Guards
pub mod Waits
pub mod Deliver
mod Tests
use giroledger.Base.{
  ℕ, zero, suc, ◌+◌, ◌-◌, ◌*◌, ◌/◌, Bool, true, false, not, Option, none, some, List, [], ◌∷◌, ltb,
  leb, if◌then◌else◌,
}
use giroledger.Base.Int.{pos}
use giroledger.Base.Text.{Text, codes, lower, text_eq}
use giroledger.Base.Result.{Result, ok, err, ◌>>=◌, ◌>>◌, throw_if}
use giroledger.Rules.{Rule, CreateRuleParams}
use giroledger.Memo.{
  Viem, Call, ContractSet, HashInstructionMemo, build_create_rule_instruction,
  build_cancel_rule_instruction, to_xrpl_hex,
}
use giroledger.Commitment.{sum_active_commitment}

pub record MintingFees : Type 0 where
  pub destination : Text
  pub executor_fee_uba : ℕ
  pub fee_bips : ℕ
  pub minimum_fee_uba : ℕ

-- `computeDirectMintingPaymentUBA`.
unfoldable pub compute_direct_minting_payment_uba : (net fee_bips minimum executor : ℕ) → ℕ
compute_direct_minting_payment_uba net fee_bips minimum executor =
    let proportional = net * fee_bips / 10_000 in
    let minting_fee = if ltb minimum proportional then proportional else minimum in
    net + minting_fee + executor

pub record DirectMintingQuote : Type 0 where
  pub destination : Text
  pub amount_uba : ℕ
  pub net_mint_uba : ℕ
  pub minting_fee_uba : ℕ
  pub executor_fee_uba : ℕ

-- `quoteFor`.
unfoldable pub quote_for : MintingFees → ℕ → DirectMintingQuote
quote_for fees net =
    let proportional = net * fees.fee_bips / 10_000 in
    record {
      destination = fees.destination;
      amount_uba =
          compute_direct_minting_payment_uba net fees.fee_bips fees.minimum_fee_uba
            fees.executor_fee_uba;
      net_mint_uba = net;
      minting_fee_uba =
          if ltb fees.minimum_fee_uba proportional then proportional else fees.minimum_fee_uba;
      executor_fee_uba = fees.executor_fee_uba;
    }

-- The reads of both flows. A rule that does not exist is read with the zero address.
pub record World : Type 0 where
  pub contract_by_name : Text → Result Text Text
  pub personal_account : (controller address : Text) → Result Text Text
  pub nonce : (controller account : Text) → Result Text ℕ
  pub rules_of : Text → Result Text (List Text)
  pub get_rule : Text → Result Text Rule
  pub payment_address : (manager : Text) → Result Text Text
  pub executor_fee : (manager : Text) → Result Text ℕ
  pub fee_bips : (manager : Text) → Result Text ℕ
  pub minimum_fee : (manager : Text) → Result Text ℕ
  pub balance : Text → Result Text ℕ

-- The payment that is signed and submitted; it has no destination tag.
pub record Payment : Type 0 where
  pub account : Text
  pub destination : Text
  pub amount : ℕ
  pub memo_data : Text

abbrev pub zero_address : Text
zero_address = codes "0x0000000000000000000000000000000000000000"

abbrev pub reserve_drops : ℕ
reserve_drops = 1_000_000

module _ (w : World) where
  abbrev pub read_rules : List Text → Result Text (List Rule)
  read_rules [] = ok []
  read_rules (id ∷ ids) = do
    r ← w.get_rule id
    rs ← read_rules ids
    ok (record r { rule_id = id } ∷ rs)

  -- `readActiveCommitment`.
  unfoldable pub read_active_commitment : Text → Option Text → Result Text ℕ
  read_active_commitment account exclude = do
    ids ← w.rules_of account
    rules ← read_rules ids
    ok (sum_active_commitment rules exclude)

  -- `computePaymentXrp`.
  unfoldable pub compute_payment : ℕ → Result Text ℕ
  compute_payment net = do
    manager ← w.contract_by_name (codes "AssetManagerFXRP")
    executor ← w.executor_fee manager
    bips ← w.fee_bips manager
    minimum ← w.minimum_fee manager
    ok (compute_direct_minting_payment_uba net bips minimum executor)

  -- What both flows do behind the instruction: the address, the amount and the check of the balance.
  unfoldable pub prepare_payment : Text → Text → ℕ → HashInstructionMemo → Result Text Payment
  prepare_payment manager wallet net memo = do
    core_vault ← w.payment_address manager
    amount ← compute_payment net
    balance ← w.balance wallet
    throw_if (ltb balance (amount + reserve_drops)) (codes "XRPL wallet needs more XRP")
    ok (record {
      account = wallet;
      destination = core_vault;
      amount = amount;
      memo_data = to_xrpl_hex memo.memo_data;
    })

module _ {E : Type 0} {A : Type 0} where
  -- The builders' errors are thrown on with a message.
  abbrev pub rethrow : Result E A → Result Text A
  rethrow (ok a) = ok a
  rethrow (err e) = err (codes "instruction not built")

module _ (v : Viem) (w : World) (contracts : ContractSet) (wallet : Text) where
  -- `createRule` up to the payment.
  unfoldable pub prepare_create : CreateRuleParams → ℕ → Result Text (Payment × HashInstructionMemo)
  prepare_create params net = do
    controller ← w.contract_by_name (codes "MasterAccountController")
    manager ← w.contract_by_name (codes "AssetManagerFXRP")
    account ← w.personal_account controller wallet
    nonce ← w.nonce controller account
    other ← read_active_commitment w account none
    built ←
        rethrow (build_create_rule_instruction v params contracts account nonce (some (pos other)))
    payment ← prepare_payment w manager wallet net built.1
    ok (payment, built.1)

  -- `cancelRule` up to the payment.
  unfoldable pub prepare_cancel : Text → Result Text (Payment × HashInstructionMemo)
  prepare_cancel rule_id = do
    controller ← w.contract_by_name (codes "MasterAccountController")
    manager ← w.contract_by_name (codes "AssetManagerFXRP")
    account ← w.personal_account controller wallet
    rule ← w.get_rule rule_id
    throw_if (text_eq rule.account zero_address) (codes "No such rule")
    throw_if (not (text_eq (lower rule.account) (lower account))) (codes "not this wallet's rule")
    throw_if (not rule.active) (codes "rule is already inactive")
    nonce ← w.nonce controller account
    remaining ← read_active_commitment w account (some rule_id)
    built ←
        rethrow
          (build_cancel_rule_instruction v rule_id contracts account nonce (some (pos remaining)))
    payment ← prepare_payment w manager wallet 0 built.1
    ok (payment, built.1)
