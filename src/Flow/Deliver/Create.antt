-- ===== src/Flow/Deliver/Create.antt =====
-- What the flow of createRule.ts sends, from its first read to the rule that it names.
use giroledger.Base.{ℕ, ◌≡◌, false, List, [], length, inl, inr}
use giroledger.Base.Text.{Text, codes}
use giroledger.Base.Result.{Result, ok, err, Result-cases}
use giroledger.Base.Calls.{Run, call_rule}
use giroledger.Rules.{CreateRuleParams}
use giroledger.Memo.{Viem, ContractSet, HashInstructionMemo}
use giroledger.Flow.{World, Payment, prepare_create}
use giroledger.Flow.Deliver.{Sent, Receipt, Rest, continue, first_created, create_rule_flow}
use giroledger.Flow.Deliver.Safety.{Trace, IsSafe, deliver-IsSafe}

-- A flow: nothing is sent before the part up to the payment has passed.
pub data FlowTrace (rest : Rest) (fuel : ℕ) (prepared : Result Text (Payment × HashInstructionMemo))
    : List Sent → Type 0 where
  nothing : FlowTrace rest fuel prepared []
  delivers :
      (manager : Text) (payment : Payment) (memo : HashInstructionMemo) (sent : List Sent)
      → prepared ≡ ok (payment, memo)
      → Trace rest fuel manager payment memo sent
      → FlowTrace rest fuel prepared sent

-- The rule that is named is the first that a receipt, which is not reverted, says was created.
abbrev pub Created : (rest : Rest) → Result Text Text → ℕ → Type 0
Created rest (ok id) sent =
    (sent ≡ 3)
    × ((hash : Text) × (receipt : Receipt) × (rest.receipt hash ≡ ok receipt)
        × (receipt.reverted ≡ false)
        × (first_created receipt ≡ ok id))
Created rest (err e) sent = Unit

pub record CreateSafe (rest : Rest) (fuel : ℕ)
    (prepared : Result Text (Payment × HashInstructionMemo)) (r : Run Sent Text) : Type 0 where
  pub trace : FlowTrace rest fuel prepared r.0
  pub ends : Created rest r.1 (length r.0)

created_from :
    (rest : Rest) (fuel : ℕ) (manager : Text) (payment : Payment) (memo : HashInstructionMemo)
    (prepared : Result Text (Payment × HashInstructionMemo)) (r : Run Sent Receipt)
    → prepared ≡ ok (payment, memo)
    → IsSafe rest fuel manager payment memo r
    → CreateSafe rest fuel prepared (continue r first_created)
created_from rest fuel manager payment memo prepared (sent, err e) h v = record {
  trace = delivers manager payment memo sent h v.trace;
  ends = tt;
}
created_from rest fuel manager payment memo prepared (sent, ok receipt) h v =
    let t : FlowTrace rest fuel prepared sent = delivers manager payment memo sent h v.trace in
    elim (Result-cases (first_created receipt)) [
      | inr (e, missing) ↦ record { trace = t; ends = rw missing tt }
      | inl (id, first) ↦ record {
        trace = t;
        ends = rw first (v.ends.0, (v.ends.2.0, receipt, v.ends.2.1, v.ends.1, first));
      }
    ]

module _ (v : Viem) (w : World) (contracts : ContractSet) (wallet : Text) (rest : Rest)
    (fuel : ℕ) where
  -- The creation flow sends nothing unless the part up to the payment passed. It sends the payment
  -- first, an attestation request only behind a payment that succeeded and is final, and the mint
  -- only behind a proof that the sixty polls found, for the prepared instruction and with a gas
  -- limit of at least 1500000 and twice the estimate. Where the flow names a rule, all three were
  -- sent, the receipt is not reverted, and the rule is the first that it says was created.
  pub create_rule_flow-CreateSafe :
      (params : CreateRuleParams) (net : ℕ)
      → CreateSafe rest fuel
          (prepare_create v w contracts wallet params net)
          (create_rule_flow v w contracts wallet rest fuel params net)
  unfolding create_rule_flow
  create_rule_flow-CreateSafe params net =
      let prepared = prepare_create v w contracts wallet params net in
      let P = CreateSafe rest fuel prepared in
      let stops = λ (e : Text). nowhere e in
      call_rule P [] (w.contract_by_name (codes "AssetManagerFXRP")) _ stops λ manager h1.
        call_rule P [] prepared _ stops λ made h2.
          created_from rest fuel manager made.0 made.1 prepared _ h2
            (deliver-IsSafe w rest fuel manager made.0 made.1)
    where
      nowhere :
          (e : Text)
          → CreateSafe rest fuel (prepare_create v w contracts wallet params net) ([], err e)
      nowhere e = record { trace = nothing; ends = tt }
