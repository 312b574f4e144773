-- ===== src/Web/Page/Contracts.antt =====
-- The instruction of step 3 of apps/web/src/routes/app.tsx: its contracts, its calls and its memo.
use giroledger.Base.{ℕ, ◌≡◌, refl, ap, subst, ◌∙◌, Option, none, some, List, Option-cases, inl, inr}
use giroledger.Base.Int.{pos}
use giroledger.Base.Text.{Text}
use giroledger.Base.Result.{Result, ok, err, bind-ok}
use giroledger.Rules.{CreateRuleParams}
use giroledger.Memo.{
  Viem, Call, ContractSet, HashInstructionMemo, build_create_rule_instruction,
  encode_hash_instruction_memo, build_create_rule_calls,
}
use giroledger.Commitment.{sum_active_commitment}
use giroledger.Web.Chain.{Resolved, Fxrp}
use giroledger.Web.Page.{Env, Page}
use giroledger.Web.Page.View.{contracts_of, instruction, ok_or_none}

abbrev pub Instruction : Type 0
Instruction = List Call × HashInstructionMemo

pub ok_or_none-some {ℓ} :
    {E : Type 0} {A : Type ℓ} (r : Result E A) (a : A) → ok_or_none r ≡ some a → r ≡ ok a
ok_or_none-some (ok b) a h = cc
ok_or_none-some (err e) a h = absurd (cc)

-- The contracts that the page knows.
abbrev pub known : (token : Fxrp) (registry executor : Text) → ContractSet
known token registry executor = record {
  fxrp = token.address;
  rule_registry = registry;
  rule_executor = executor;
}

-- The page knows its token and both contracts.
pub record Configured (env : Env) (p : Page) (token : Fxrp) (registry executor : Text)
    : Type 0 where
  pub token_read : p.fxrp ≡ some token
  pub has_registry : env.registry ≡ some registry
  pub has_executor : env.executor ≡ some executor

-- The contracts are those from the environment and the token's, in their places.
pub contracts_of-known :
    (env : Env) (p : Page) (token : Fxrp) (registry executor : Text) (c : ContractSet)
    (r : Resolved)
    → Configured env p token registry executor
    → contracts_of env p ≡ some (c, r)
    → (c ≡ known token registry executor) × (p.resolved ≡ some r)
contracts_of-known env p token registry executor c r k h = elim (Option-cases p.resolved) [
  | inl nobody ↦ absurd (cc (rw (k.token_read, nobody) at h))
  | inr (q, here) ↦
      let is : ◌≡◌ {A = Option (ContractSet × Resolved)} (some (known token registry executor, q))
          (some (c, r)) =
        rw (k.token_read, here, k.has_registry, k.has_executor) at h in
      (cc, cc)
]

pub instruction-some :
    (env : Env) (v : Viem) (p : Page) (token : Fxrp) (registry executor : Text)
    (w : Option CreateRuleParams) (i : Instruction)
    → Configured env p token registry executor
    → instruction env v p w ≡ some i
    → (wanted : CreateRuleParams) × (account : Resolved) × (w ≡ some wanted)
      × (p.resolved ≡ some account)
      × (build_create_rule_instruction v wanted
            (known token registry executor)
            account.account
            account.nonce
            (some (pos (sum_active_commitment p.rules none)))
          ≡ ok i)
unfolding instruction
instruction-some env v p token registry executor none i k h = absurd (cc)
instruction-some env v p token registry executor (some wanted) i k h =
    elim (Option-cases (contracts_of env p)) [
      | inl missing ↦ absurd (cc (rw (missing, instruction) at h))
      | inr ((contracts, account), there) ↦
          let (is, here) =
            contracts_of-known env p token registry executor contracts account k there in
          (
            wanted,
            account,
            refl,
            here,
            subst
                (λ c.
                  build_create_rule_instruction v wanted c account.account account.nonce
                    (some (pos (sum_active_commitment p.rules none)))
                  ≡ ok i)
                is (ok_or_none-some _ i (rw (there, instruction) at h)),
          )
    ]

-- The calls of an instruction, and its memo.
pub instruction-parts :
    (v : Viem) (w : CreateRuleParams) (c : ContractSet) (account : Text) (nonce other : ℕ)
    (calls : List Call) (memo : HashInstructionMemo)
    → build_create_rule_instruction v w c account nonce (some (pos other)) ≡ ok (calls, memo)
    → (build_create_rule_calls v w c (pos other) ≡ ok calls)
      × (encode_hash_instruction_memo v calls account nonce none none ≡ ok memo)
unfolding build_create_rule_instruction
instruction-parts v w c account nonce other calls memo h =
    let (cs, made, r1) = bind-ok (build_create_rule_calls v w c (pos other)) _ (calls, memo) h in
    let (m, packed, r2) =
      bind-ok (encode_hash_instruction_memo v cs account nonce none none) _ (calls, memo) r1 in
    let same : cs ≡ calls = cc in
    let same_memo : m ≡ memo = cc in
    (
      made ∙ ap ok same,
      subst (λ x. encode_hash_instruction_memo v x account nonce none none ≡ ok memo) same
          (packed ∙ ap ok same_memo),
    )
