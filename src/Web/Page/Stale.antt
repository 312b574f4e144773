-- ===== src/Web/Page/Stale.antt =====
-- What the page shows while `resolve` still waits.
use giroledger.Base.{
  ℕ, ◌≡◌, refl, true, Option, none, some, List, [], ◌∷◌, get_elem?, inl, inr, Bool-cases,
}
use giroledger.Base.Int.{pos}
use giroledger.Base.Text.{Text}
use giroledger.Base.Result.{ok, Result-cases}
use giroledger.Rules.{CreateRuleParams}
use giroledger.Memo.{Viem, build_create_rule_instruction}
use giroledger.Commitment.{sum_active_commitment}
use giroledger.Web.Numbers.{trim}
use giroledger.Web.History.{Logs, get_executions}
use giroledger.Web.Chain.{Node, Fxrp, Resolved, resolve_personal_account, get_rules_for}
use giroledger.Web.Page.{Env, Page, valid, read_balance, resolve, rendered}
use giroledger.Web.Page.View.{instruction, ok_or_none}

-- The last of the states, or the page as it was.
abbrev pub last_or : Page → List Page → Page
last_or p [] = p
last_or p (q ∷ qs) = last_or q qs

module _ (env : Env) (node : Node) (logs : Logs) where
  -- The last state that is rendered is what `resolve` leaves.
  pub last_or-rendered : (p : Page) → last_or p (rendered env node logs p) ≡ resolve env node logs p
  unfolding rendered resolve
  last_or-rendered p = elim (Bool-cases (valid p)) [
    | inr no_address ↦ rw no_address refl
    | inl ready ↦ elim (Result-cases (resolve_personal_account node (trim p.xrpl))) [
      | inr (e, stops) ↦ rw (ready, stops) refl
      | inl (r, found) ↦ elim (Result-cases (read_balance env node logs p r)) [
        | inr (e, stops) ↦ rw (ready, found, stops) refl
        | inl (b, held) ↦ elim (Result-cases (get_rules_for node env.registry r.account)) [
          | inr (e, stops) ↦ rw (ready, found, held, stops) refl
          | inl (rs, read) ↦ elim (Result-cases (get_executions logs env.executor r.account 60)) [
            | inr (e, stops) ↦ rw (ready, found, held, read, stops) refl
            | inl (h, past) ↦ rw (ready, found, held, read, past) refl
          ]
        ]
      ]
    ]
  ]

  -- Where the address resolves to an account whose balance is read, and the page knows the token
  -- and its contracts: among the states that are rendered while the rest is awaited is one that has
  -- the account but still the rules that stood on the page before, and its instruction is built for
  -- that account and its nonce with the commitment of those rules.
  pub rendered-instruction :
      (v : Viem) (p : Page) (r : Resolved) (b : Option ℕ) (token : Fxrp) (registry executor : Text)
      (wanted : CreateRuleParams)
      → valid p ≡ true
      → p.fxrp ≡ some token
      → env.registry ≡ some registry
      → env.executor ≡ some executor
      → resolve_personal_account node (trim p.xrpl) ≡ ok r
      → read_balance env node logs p r ≡ ok b
      → (q : Page) × (get_elem? (rendered env node logs p) 2 ≡ some q)
        × (q.resolved ≡ some r)
        × (q.rules ≡ p.rules)
        × (instruction env v q (some wanted)
            ≡ ok_or_none (
                build_create_rule_instruction v wanted
                  (record {
                    fxrp = token.address;
                    rule_registry = registry;
                    rule_executor = executor;
                  })
                  r.account
                  r.nonce
                  (some (pos (sum_active_commitment p.rules none)))))
  unfolding rendered instruction
  rendered-instruction v p r b token registry executor wanted ready known listed runs found held = (
    record p { resolving = true; error = none; resolved = some r; balance = b },
    rw (ready, found, held) refl,
    refl,
    refl,
    rw (known, listed, runs) refl,
  )
