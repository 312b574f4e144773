-- ===== src/Web/Page/Stops.antt =====
-- The payment that stops a rule: what its amount and memo stand for.
use giroledger.Base.{ℕ, ◌≡◌, ap, subst, ◌∙◌, Option, none, some, List, Option-cases, inl, inr}
use giroledger.Base.Int.{pos}
use giroledger.Base.Text.{Text}
use giroledger.Base.Result.{ok, bind-ok}
use giroledger.Flow.{MintingFees, DirectMintingQuote, quote_for}
use giroledger.Memo.{
  Viem, Call, ContractSet, HashInstructionMemo, build_cancel_rule_instruction, to_xrpl_hex,
  FunctionCall, encode_hash_instruction_memo, build_cancel_rule_calls,
}
use giroledger.Commitment.{sum_active_commitment, apply_calls, switch_off}
use giroledger.Commitment.Coverage.{
  Decodes, build_cancel_rule_calls-apply_calls, build_cancel_rule_calls-sum_active_commitment,
}
use giroledger.Web.Chain.{Resolved, Fxrp}
use giroledger.Web.Page.{Env, Page}
use giroledger.Web.Page.View.{Shown, contracts_of, cancel_instruction, cancel_quote, stop_panel}
use giroledger.Web.Page.Contracts.{
  Instruction, ok_or_none-some, contracts_of-known, Configured, known,
}
use giroledger.Web.Page.Payment.{shown-some, quote_for-destination}

-- The payment that stops a rule: it mints nothing, and its memo is for the account and the nonce that
-- were read. Carried out by an account with the rules shown, its calls switch the chosen rule off, and
-- leave an allowance of what the rules can draw then.
pub record Stops (v : Viem) (decode : Text → Option FunctionCall) (contracts : ContractSet)
    (p : Page) (s : Shown) : Type 0 where
  pub rule_id : Text
  pub fees : MintingFees
  pub account : Resolved
  pub calls : List Call
  pub memo : HashInstructionMemo
  pub chosen : p.stopping ≡ some rule_id
  pub fees_read : p.fees ≡ some fees
  pub account_read : p.resolved ≡ some account
  pub committed :
      encode_hash_instruction_memo v calls account.account account.nonce none none ≡ ok memo
  pub memo_hex : s.memo_hex ≡ to_xrpl_hex memo.memo_data
  pub amount : s.amount_drops ≡ (quote_for fees 0).amount_uba
  pub destination : s.destination ≡ fees.destination
  pub switched_off :
      (now : ℕ) (sender id : Text) (allowance : ℕ)
      → (apply_calls decode contracts now sender id calls
          (record { rules = p.rules; allowance = allowance })).rules
        ≡ switch_off rule_id p.rules
  pub allowed :
      (now : ℕ) (sender id : Text) (allowance : ℕ)
      → let after =
          apply_calls decode contracts now sender id calls
            (record { rules = p.rules; allowance = allowance }) in
        after.allowance ≡ sum_active_commitment after.rules none

cancel_instruction-some :
    (env : Env) (v : Viem) (p : Page) (token : Fxrp) (registry executor : Text) (i : Instruction)
    → Configured env p token registry executor
    → cancel_instruction env v p ≡ some i
    → (id : Text) × (account : Resolved) × (p.stopping ≡ some id)
      × (p.resolved ≡ some account)
      × (build_cancel_rule_instruction v id
            (known token registry executor)
            account.account
            account.nonce
            (some (pos (sum_active_commitment p.rules (some id))))
          ≡ ok i)
unfolding cancel_instruction
cancel_instruction-some env v p token registry executor i k h = elim (Option-cases p.stopping) [
  | inl nothing ↦ absurd (cc (rw (nothing, cancel_instruction) at h))
  | inr (id, chosen) ↦ elim (Option-cases (contracts_of env p)) [
    | inl missing ↦ absurd (cc (rw (chosen, missing, cancel_instruction) at h))
    | inr ((contracts, account), there) ↦
        let (is, here) =
          contracts_of-known env p token registry executor contracts account k there in
        (
          id,
          account,
          chosen,
          here,
          subst
              (λ c.
                build_cancel_rule_instruction v id c account.account account.nonce
                  (some (pos (sum_active_commitment p.rules (some id))))
                ≡ ok i)
              is (ok_or_none-some _ i (rw (chosen, there, cancel_instruction) at h)),
        )
  ]
]

-- The calls of a cancellation, and its memo.
cancellation-parts :
    (v : Viem) (rule_id : Text) (c : ContractSet) (account : Text) (nonce rest : ℕ)
    (calls : List Call) (memo : HashInstructionMemo)
    → build_cancel_rule_instruction v rule_id c account nonce (some (pos rest)) ≡ ok (calls, memo)
    → (build_cancel_rule_calls v rule_id c (pos rest) ≡ ok calls)
      × (encode_hash_instruction_memo v calls account nonce none none ≡ ok memo)
unfolding build_cancel_rule_instruction
cancellation-parts v rule_id c account nonce rest calls memo h =
    let (cs, made, r1) =
      bind-ok (build_cancel_rule_calls v rule_id c (pos rest)) _ (calls, memo) h in
    let (m, packed, r2) =
      bind-ok (encode_hash_instruction_memo v cs account nonce none none) _ (calls, memo) r1 in
    let same : cs ≡ calls = cc in
    let same_memo : m ≡ memo = cc in
    (
      made ∙ ap ok same,
      subst (λ x. encode_hash_instruction_memo v x account nonce none none ≡ ok memo) same
          (packed ∙ ap ok same_memo),
    )

cancel_quote-some :
    (p : Page) (q : DirectMintingQuote)
    → cancel_quote p ≡ some q
    → (f : MintingFees) × (p.fees ≡ some f) × (q ≡ quote_for f 0)
unfolding cancel_quote
cancel_quote-some p q h = elim (Option-cases p.fees) [
  | inl unread ↦ absurd (cc (rw (unread, cancel_quote) at h))
  | inr (f, read) ↦ (f, read, cc (rw (read, cancel_quote) at h))
]

-- Where the page knows its token and contracts and shows a payment that stops a rule, the memo
-- commits to calls for the account and the nonce that were read. Carried out by an account with the
-- rules on the page, where the encoded calls are read back as they were encoded and the token is
-- another contract than the registry, they switch off the chosen rule and leave an allowance that
-- equals the sum over the rules then. The amount is the quote for no mint, and the destination
-- comes from the fees that were read.
pub stop_panel-Stops :
    (env : Env) (v : Viem) (decode : Text → Option FunctionCall) (p : Page) (token : Fxrp)
    (registry executor : Text) (s : Shown)
    → Configured env p token registry executor
    → Decodes v decode (known token registry executor)
    → stop_panel env v p ≡ some s
    → Stops v decode (known token registry executor) p s
unfolding stop_panel
stop_panel-Stops env v decode p token registry executor s k d h = elim (Option-cases p.resolved) [
  | inl nobody ↦ absurd (cc (rw (nobody, stop_panel) at h))
  | inr (r, here) ↦
      let contracts = known token registry executor in
      let (quote, calls, memo, quoted, made, is) =
        shown-some (cancel_quote p) (cancel_instruction env v p) s (rw (here, stop_panel) at h) in
      let (id, account, chosen, read, built) =
        cancel_instruction-some env v p token registry executor (calls, memo) k made in
      let (fees, fees_read, priced) = cancel_quote-some p quote quoted in
      let rest = sum_active_commitment p.rules (some id) in
      let (called, packed) =
        cancellation-parts v id contracts account.account account.nonce rest calls memo built in
      record {
        rule_id = id;
        fees = fees;
        account = account;
        calls = calls;
        memo = memo;
        chosen = chosen;
        fees_read = fees_read;
        account_read = read;
        committed = packed;
        memo_hex = ap (λ x. x.memo_hex) is;
        amount = ap (λ x. x.amount_drops) is ∙ ap (λ x. x.amount_uba) priced;
        destination =
            ap (λ x. x.destination) is
            ∙ ap (λ x. x.destination) priced
            ∙ quote_for-destination fees 0;
        switched_off = λ now sender new_id allowance.
            ap (λ x. x.rules)
              (build_cancel_rule_calls-apply_calls v decode contracts d id rest calls now sender
                new_id (record { rules = p.rules; allowance = allowance }) called);
        allowed = λ now sender new_id allowance.
            build_cancel_rule_calls-sum_active_commitment v decode contracts d id calls now sender
              new_id (record { rules = p.rules; allowance = allowance }) called;
      }
]
