-- ===== src/Web/Page/Payment.antt =====
-- The payments that the page asks for: what their amount and memo stand for.
use giroledger.Base.{
  ℕ, ◌+◌, max, ◌++◌, [], ◌∷◌, ◌≡◌, refl, ap, subst, ◌∙◌, Bool, true, false, not, Option, none, some,
  List, arith, if◌then◌else◌, Option-cases, inl, inr,
}
use giroledger.Base.Text.{Text}
use giroledger.Base.Result.{Result, ok, bind-ok}
use giroledger.Rules.{CreateRuleParams}
use giroledger.Flow.{MintingFees, DirectMintingQuote, quote_for}
use giroledger.Memo.{
  Viem, Call, ContractSet, HashInstructionMemo, to_xrpl_hex, FunctionCall,
  encode_hash_instruction_memo,
}
use giroledger.Registry.{new_rule}
use giroledger.Commitment.{sum_active_commitment, apply_calls}
use giroledger.Commitment.Coverage.{
  Decodes, build_create_rule_calls-apply_calls, build_create_rule_calls-sum_active_commitment,
}
use giroledger.Web.Chain.{Resolved, Fxrp}
use giroledger.Web.Page.{Env, Page}
use giroledger.Web.Page.View.{
  Shown, Step3, params, shown, shortfall, configured, instruction, create_quote, step3,
}
use giroledger.Web.Page.Contracts.{
  Instruction, known, Configured, instruction-some, instruction-parts,
}

abbrev pub held : Page → ℕ
held p = elim p.balance [ none ↦ 0 | some b ↦ b ]

pub quote_for-destination :
    (f : MintingFees) (net : ℕ) → (quote_for f net).destination ≡ f.destination
unfolding quote_for
quote_for-destination f net = refl

-- A payment is shown from a quote and an instruction.
pub shown-some :
    (q : Option DirectMintingQuote) (i : Option Instruction) (s : Shown)
    → shown q i ≡ some s
    → (quote : DirectMintingQuote) × (calls : List Call) × (memo : HashInstructionMemo) × (q
        ≡ some quote)
      × (i ≡ some (calls, memo))
      × (s ≡ record {
        destination = quote.destination;
        amount_drops = quote.amount_uba;
        memo_hex = to_xrpl_hex memo.memo_data;
      })
shown-some none i s h = absurd (cc)
shown-some (some q) none s h = absurd (cc)
shown-some (some q) (some (calls, memo)) s h = (q, calls, memo, refl, refl, cc)

-- The payment that creates the rule: the mint raises what the account holds to the cap where it is
-- less, and the memo is that of the rule shown, for the account and the nonce that were read. Carried
-- out by an account with the rules shown, its calls add the rule and leave an allowance of what all
-- rules can still draw.
pub record Creates (v : Viem) (decode : Text → Option FunctionCall) (contracts : ContractSet)
    (p : Page) (s : Shown) : Type 0 where
  pub wanted : CreateRuleParams
  pub fees : MintingFees
  pub account : Resolved
  pub calls : List Call
  pub memo : HashInstructionMemo
  pub net : ℕ
  pub on_screen : params p ≡ ok (some wanted)
  pub fees_read : p.fees ≡ some fees
  pub account_read : p.resolved ≡ some account
  pub committed :
      encode_hash_instruction_memo v calls account.account account.nonce none none ≡ ok memo
  pub memo_hex : s.memo_hex ≡ to_xrpl_hex memo.memo_data
  pub amount : s.amount_drops ≡ (quote_for fees net).amount_uba
  pub destination : s.destination ≡ fees.destination
  pub funded : held p + net ≡ max (held p) wanted.total_spend_cap
  pub rule_added :
      (now : ℕ) (sender id : Text) (allowance : ℕ)
      → (apply_calls decode contracts now sender id calls
          (record { rules = p.rules; allowance = allowance })).rules
        ≡ p.rules ++ new_rule id now sender wanted ∷ []
  pub allowed :
      (now : ℕ) (sender id : Text) (allowance : ℕ)
      → let after =
          apply_calls decode contracts now sender id calls
            (record { rules = p.rules; allowance = allowance }) in
        after.allowance ≡ sum_active_commitment after.rules none

create_quote-some :
    (p : Page) (w : CreateRuleParams) (q : DirectMintingQuote)
    → create_quote p (some w) ≡ some q
    → (f : MintingFees) × (p.fees ≡ some f) × (q ≡ quote_for f (shortfall p w))
unfolding create_quote
create_quote-some p w q h = elim (Option-cases p.fees) [
  | inl unread ↦ absurd (cc (rw (unread, create_quote) at h))
  | inr (f, read) ↦ (f, read, cc (rw (read, create_quote) at h))
]

-- What step 3 makes of its quote and its instruction.
step3_shown :
    (ready : Bool) (r : Option Resolved) (o : Option Shown) (s : Shown)
    → ◌≡◌ {A = Result Text Step3}
        (ok (
          if not ready then Step3.not_configured else (elim r [
            | none ↦ Step3.resolve_first
            | some a ↦ (elim o [ none ↦ Step3.reading_fees | some t ↦ Step3.payment t ])
          ])))
        (ok (Step3.payment s))
    → o ≡ some s
step3_shown false r o s h = absurd (cc)
step3_shown true none o s h = absurd (cc)
step3_shown true (some a) none s h = absurd (cc)
step3_shown true (some a) (some t) s h = cc

shortfall-max :
    (p : Page) (w : CreateRuleParams) → held p + shortfall p w ≡ max (held p) w.total_spend_cap
shortfall-max p w = ground arith

-- Where the page knows its token and contracts and step 3 shows a payment, the memo commits to
-- calls for the account and the nonce that were read. Carried out by an account with the rules on
-- the page, where the encoded calls are read back as they were encoded and the token is another
-- contract than the registry, they add the rule that the input makes and leave an allowance that
-- equals the sum over all rules then. The amount and the destination come from the fees that were
-- read, for a net mint that raises the balance to the rule's cap, where it is less, and not above.
pub step3-Creates :
    (env : Env) (v : Viem) (decode : Text → Option FunctionCall) (p : Page) (token : Fxrp)
    (registry executor : Text) (s : Shown)
    → Configured env p token registry executor
    → Decodes v decode (known token registry executor)
    → step3 env v p ≡ ok (Step3.payment s)
    → Creates v decode (known token registry executor) p s
unfolding step3
step3-Creates env v decode p token registry executor s k d h =
    let contracts = known token registry executor in
    let (w, on_screen, rest) = bind-ok (params p) _ (Step3.payment s) h in
    let shows =
      step3_shown (configured env) p.resolved (shown (create_quote p w) (instruction env v p w)) s
        rest in
    let (quote, calls, memo, quoted, made, is) =
      shown-some (create_quote p w) (instruction env v p w) s shows in
    let (wanted, account, same, read, built) =
      instruction-some env v p token registry executor w (calls, memo) k made in
    let (fees, fees_read, priced) =
      create_quote-some p wanted quote (subst (λ x. create_quote p x ≡ some quote) same quoted) in
    let other = sum_active_commitment p.rules none in
    let (called, packed) =
      instruction-parts v wanted contracts account.account account.nonce other calls memo built in
    record {
      wanted = wanted;
      fees = fees;
      account = account;
      calls = calls;
      memo = memo;
      net = shortfall p wanted;
      on_screen = on_screen ∙ ap ok same;
      fees_read = fees_read;
      account_read = read;
      committed = packed;
      memo_hex = ap (λ x. x.memo_hex) is;
      amount = ap (λ x. x.amount_drops) is ∙ ap (λ x. x.amount_uba) priced;
      destination =
          ap (λ x. x.destination) is
          ∙ ap (λ x. x.destination) priced
          ∙ quote_for-destination fees (shortfall p wanted);
      funded = shortfall-max p wanted;
      rule_added = λ now sender id allowance.
          ap (λ x. x.rules)
            (build_create_rule_calls-apply_calls v decode contracts d wanted other calls now sender
              id (record { rules = p.rules; allowance = allowance }) called);
      allowed = λ now sender id allowance.
          build_create_rule_calls-sum_active_commitment v decode contracts d wanted calls now sender
            id (record { rules = p.rules; allowance = allowance }) called;
    }
