-- ===== src/Flow/Guards.antt =====
-- What holds of a payment that the flows of apps/operator/src/createRule.ts and cancelRule.ts make.
use giroledger.Base.{
  ℕ, ◌+◌, ◌*◌, ◌/◌, ◌≤◌, ◌≡◌, refl, Bool, true, false, not, none, some, List, arith, ltb, max,
}
use giroledger.Base.Int.{pos}
use giroledger.Base.Text.{Text, codes, lower, text_eq, text_eq_iff}
use giroledger.Base.Result.{Result, ok, err, bind-ok, throw_if-ok, throw_if}
use giroledger.Rules.{Rule, CreateRuleParams}
use giroledger.Memo.{
  Viem, Call, ContractSet, HashInstructionMemo, build_create_rule_instruction,
  build_cancel_rule_instruction, to_xrpl_hex,
}
use giroledger.Flow.{
  World, Payment, MintingFees, compute_direct_minting_payment_uba, quote_for, zero_address,
  reserve_drops, read_active_commitment, compute_payment, prepare_payment, prepare_create,
  prepare_cancel, rethrow,
}

rethrow-ok : {E : Type 0} {A : Type 0} (r : Result E A) (a : A) → rethrow r ≡ ok a → r ≡ ok a
rethrow-ok (ok x) a h = ground arith
rethrow-ok (err e) a h = absurd (ground arith)

-- The payment that a memo goes out with: its balance covers the amount and the reserve.
pub record Funded (w : World) (wallet : Text) (memo : HashInstructionMemo) (p : Payment)
    : Type 0 where
  pub account : p.account ≡ wallet
  pub memo_data : p.memo_data ≡ to_xrpl_hex memo.memo_data
  pub balance : ℕ
  pub read : w.balance wallet ≡ ok balance
  pub covers : p.amount + reserve_drops ≤ balance

prepare_payment-ok :
    (w : World) (manager wallet : Text) (net : ℕ) (memo : HashInstructionMemo) (p : Payment)
    → prepare_payment w manager wallet net memo ≡ ok p
    → Funded w wallet memo p
unfolding prepare_payment
prepare_payment-ok w manager wallet net memo p h =
    let (vault, e1, h1) = bind-ok (w.payment_address manager) _ p h in
    let (amount, e2, h2) = bind-ok (compute_payment w net) _ p h1 in
    let (balance, e3, h3) = bind-ok (w.balance wallet) _ p h2 in
    let (u, e4, h4) =
      bind-ok (throw_if (ltb balance (amount + reserve_drops)) (codes "XRPL wallet needs more XRP"))
        _ p h3 in
    let enough = throw_if-ok _ (codes "XRPL wallet needs more XRP") u e4 in
    record {
      account = ground arith;
      memo_data = ground arith;
      balance = balance;
      read = e3;
      covers = ground (arith, enough);
    }

same_text : (a b : Text) → not (text_eq a b) ≡ false → a ≡ b
same_text a b h = ground (arith, text_eq_iff a b)

is_on : (b : Bool) → not b ≡ false → b ≡ true
is_on b h = ground arith

abbrev prepared : Payment × HashInstructionMemo → Result Text (Payment × HashInstructionMemo)
prepared x = ok x

-- The last step of both flows: the payment carries the memo of the instruction that was built.
carries :
    {E : Type 0} (w : World) (manager wallet : Text) (net : ℕ)
    (build : Result E (List Call × HashInstructionMemo)) (built : List Call × HashInstructionMemo)
    (payment p : Payment) (m : HashInstructionMemo)
    → rethrow build ≡ ok built
    → prepare_payment w manager wallet net built.1 ≡ ok payment
    → prepared (payment, built.1) ≡ ok (p, m)
    → (calls : List Call) × (build ≡ ok (calls, m)) × Funded w wallet m p
carries w manager wallet net build (calls, memo) payment p m made paid h =
    let same : payment ≡ p = cc in
    let memo_same : memo ≡ m = cc in
    (
      calls,
      rw (← memo_same) (rethrow-ok build (calls, memo) made),
      rw (← memo_same, ← same) (prepare_payment-ok w manager wallet net memo payment paid),
    )

module _ (v : Viem) (w : World) (contracts : ContractSet) (wallet : Text) where
  -- Where the flow of a creation gets to its payment, the instruction is built from the nonce and
  -- the commitment of all rules read for the wallet's account, the payment carries its memo, and
  -- the balance covers the amount and the reserve.
  pub prepare_create-ok :
      (params : CreateRuleParams) (net : ℕ) (p : Payment) (m : HashInstructionMemo)
      → prepare_create v w contracts wallet params net ≡ ok (p, m)
      → (controller : Text) × (account : Text) × (nonce : ℕ) × (other : ℕ) × (w.contract_by_name
            (codes "MasterAccountController")
          ≡ ok controller)
        × (w.personal_account controller wallet ≡ ok account)
        × (w.nonce controller account ≡ ok nonce)
        × (read_active_commitment w account none ≡ ok other)
        × (calls : List Call) × (build_create_rule_instruction v params contracts account nonce
              (some (pos other))
            ≡ ok (calls, m))
        × Funded w wallet m p
  unfolding prepare_create
  prepare_create-ok params net p m h =
      let (controller, e1, h1) =
        bind-ok (w.contract_by_name (codes "MasterAccountController")) _ (p, m) h in
      let (manager, e2, h2) = bind-ok (w.contract_by_name (codes "AssetManagerFXRP")) _ (p, m) h1 in
      let (account, e3, h3) = bind-ok (w.personal_account controller wallet) _ (p, m) h2 in
      let (nonce, e4, h4) = bind-ok (w.nonce controller account) _ (p, m) h3 in
      let (other, e5, h5) = bind-ok (read_active_commitment w account none) _ (p, m) h4 in
      let build =
        build_create_rule_instruction v params contracts account nonce (some (pos other)) in
      let (built, e6, h6) = bind-ok (rethrow build) _ (p, m) h5 in
      let (payment, e7, h7) = bind-ok (prepare_payment w manager wallet net built.1) _ (p, m) h6 in
      let (calls, made, funded) = carries w manager wallet net build built payment p m e6 e7 h7 in
      (controller, account, nonce, other, e1, e3, e4, e5, calls, made, funded)

  -- Where the flow of a cancellation gets to its payment, the rule is active and belongs to the
  -- wallet's account, the instruction is built from the nonce and the commitment of the other rules
  -- read for that account, the payment carries its memo, and the balance covers the amount and the
  -- reserve.
  pub prepare_cancel-ok :
      (rule_id : Text) (p : Payment) (m : HashInstructionMemo)
      → prepare_cancel v w contracts wallet rule_id ≡ ok (p, m)
      → (controller : Text) × (account : Text) × (rule : Rule) × (nonce : ℕ) × (remaining : ℕ)
        × (w.contract_by_name (codes "MasterAccountController") ≡ ok controller)
        × (w.personal_account controller wallet ≡ ok account)
        × (w.get_rule rule_id ≡ ok rule)
        × (rule.active ≡ true)
        × (lower rule.account ≡ lower account)
        × (w.nonce controller account ≡ ok nonce)
        × (read_active_commitment w account (some rule_id) ≡ ok remaining)
        × (calls : List Call) × (build_cancel_rule_instruction v rule_id contracts account nonce
              (some (pos remaining))
            ≡ ok (calls, m))
        × Funded w wallet m p
  unfolding prepare_cancel
  prepare_cancel-ok rule_id p m h =
      let (controller, e1, h1) =
        bind-ok (w.contract_by_name (codes "MasterAccountController")) _ (p, m) h in
      let (manager, e2, h2) = bind-ok (w.contract_by_name (codes "AssetManagerFXRP")) _ (p, m) h1 in
      let (account, e3, h3) = bind-ok (w.personal_account controller wallet) _ (p, m) h2 in
      let (rule, e4, h4) = bind-ok (w.get_rule rule_id) _ (p, m) h3 in
      let (u1, g1, h5) =
        bind-ok (throw_if (text_eq rule.account zero_address) (codes "No such rule")) _ (p, m) h4 in
      let (u2, g2, h6) =
        bind-ok
          (throw_if (not (text_eq (lower rule.account) (lower account)))
            (codes "not this wallet's rule"))
          _ (p, m) h5 in
      let (u3, g3, h7) =
        bind-ok (throw_if (not rule.active) (codes "rule is already inactive")) _ (p, m) h6 in
      let owned =
        throw_if-ok (not (text_eq (lower rule.account) (lower account)))
          (codes "not this wallet's rule") u2 g2 in
      let on = throw_if-ok (not rule.active) (codes "rule is already inactive") u3 g3 in
      let (nonce, e5, h8) = bind-ok (w.nonce controller account) _ (p, m) h7 in
      let (remaining, e6, h9) =
        bind-ok (read_active_commitment w account (some rule_id)) _ (p, m) h8 in
      let build =
        build_cancel_rule_instruction v rule_id contracts account nonce (some (pos remaining)) in
      let (built, e7, h10) = bind-ok (rethrow build) _ (p, m) h9 in
      let (payment, e8, h11) = bind-ok (prepare_payment w manager wallet 0 built.1) _ (p, m) h10 in
      let (calls, made, funded) = carries w manager wallet 0 build built payment p m e7 e8 h11 in
      (
        controller,
        account,
        rule,
        nonce,
        remaining,
        e1,
        e3,
        e4,
        is_on rule.active on,
        same_text (lower rule.account) (lower account) owned,
        e5,
        e6,
        calls,
        made,
        funded,
      )

-- The parts of a quote add up to its amount: the net mint that was asked for, the larger of the
-- proportional and the minimum fee, and the executor's fee.
pub quote_for-sum :
    (fees : MintingFees) (net : ℕ)
    → let q = quote_for fees net in
      (q.amount_uba ≡ q.net_mint_uba + q.minting_fee_uba + q.executor_fee_uba)
      × (q.net_mint_uba ≡ net)
      × (q.minting_fee_uba ≡ max (net * fees.fee_bips / 10_000) fees.minimum_fee_uba)
      × (q.executor_fee_uba ≡ fees.executor_fee_uba)
unfolding quote_for compute_direct_minting_payment_uba
quote_for-sum fees net = (refl, refl, ground arith, refl)
