-- ===== src/Commitment/Coverage.antt =====
-- packages/shared/src/smartAccount.ts and memo.ts together: the one allowance of an account against what
-- its rules can still draw, over every order of creations, cancellations and runs.
use giroledger.Base.{
  ℕ, ◌+◌, ◌≡◌, refl, false, Option, none, some, List, [], ◌∷◌, ◌++◌, arith, inl, inr,
}
use giroledger.Base.Int.{pos}
use giroledger.Base.Text.{Text, text_eq, text_eq_refl}
use giroledger.Base.Result.{ok, Result-cases}
use giroledger.Rules.{CreateRuleParams}
use giroledger.Registry.{new_rule}
use giroledger.Memo.{
  Call, ContractSet, FunctionCall, approve, create_rule, cancel_rule, execute_user_op, Viem,
  build_create_rule_calls, build_cancel_rule_calls,
}
use giroledger.Commitment.{sum_active_commitment, Account, apply_calls, switch_off}
use giroledger.Commitment.Sums.{sum_active_commitment-shares, shares-append, shares-switch_off}

-- A call of the token or of the registry.
abbrev pub IsSingle : FunctionCall → Type 0
IsSingle (execute_user_op calls) = ⊥
IsSingle _ = Unit

-- The calldata of such a call is read back as the call that was encoded, and the token is another contract than the
-- registry.
pub record Decodes (v : Viem) (decode : Text → Option FunctionCall) (contracts : ContractSet)
    : Type 0 where
  pub encoded :
      (f : FunctionCall) (t : Text)
      → IsSingle f
      → v.encode_function_data f ≡ ok t
      → decode t ≡ some f
  pub apart : text_eq contracts.rule_registry contracts.fxrp ≡ false

module _ (v : Viem) (decode : Text → Option FunctionCall) (contracts : ContractSet)
    (d : Decodes v decode contracts) where
  -- The two batches of calls, with the contracts' answer to them.
  pub build_create_rule_calls-apply_calls :
      (p : CreateRuleParams) (other : ℕ) (calls : List Call) (now : ℕ) (sender id : Text)
      (a : Account)
      → build_create_rule_calls v p contracts (pos other) ≡ ok calls
      → apply_calls decode contracts now sender id calls a ≡ record {
        rules = a.rules ++ new_rule id now sender p ∷ [];
        allowance = p.total_spend_cap + other;
      }
  unfolding build_create_rule_calls
  build_create_rule_calls-apply_calls p other calls now sender id a h =
      elim (Result-cases
        (v.encode_function_data (approve contracts.rule_executor (p.total_spend_cap + other)))) [
          | inr (x, e) ↦ absurd (ground (arith, e))
          | inl (approval, e) ↦ elim (Result-cases (v.encode_function_data (create_rule p))) [
            | inr (x, f) ↦ absurd (ground (arith, e, f))
            | inl (creation, f) ↦
                let sent : calls
                    ≡ record { target = contracts.fxrp; value = 0; payload = approval }
                      ∷ record { target = contracts.rule_registry; value = 0; payload = creation }
                      ∷ [] =
                  ground (arith, e, f) in
                rw
                  (
                    sent,
                    d.encoded _ _ tt e,
                    d.encoded _ _ tt f,
                    text_eq_refl contracts.fxrp,
                    d.apart,
                    text_eq_refl contracts.rule_executor,
                    text_eq_refl contracts.rule_registry,
                  )
                  refl
          ]
        ]

  pub build_cancel_rule_calls-apply_calls :
      (rule_id : Text) (rest : ℕ) (calls : List Call) (now : ℕ) (sender id : Text) (a : Account)
      → build_cancel_rule_calls v rule_id contracts (pos rest) ≡ ok calls
      → apply_calls decode contracts now sender id calls a
        ≡ record { rules = switch_off rule_id a.rules; allowance = rest }
  unfolding build_cancel_rule_calls
  build_cancel_rule_calls-apply_calls rule_id rest calls now sender id a h =
      elim (Result-cases (v.encode_function_data (cancel_rule rule_id))) [
        | inr (x, e) ↦ absurd (ground (arith, e))
        | inl (cancellation, e) ↦
            elim (Result-cases (v.encode_function_data (approve contracts.rule_executor rest))) [
              | inr (x, f) ↦ absurd (ground (arith, e, f))
              | inl (approval, f) ↦
                  let sent : calls
                      ≡ record {
                        target = contracts.rule_registry;
                        value = 0;
                        payload = cancellation;
                      }
                        ∷ record { target = contracts.fxrp; value = 0; payload = approval }
                        ∷ [] =
                    ground (arith, e, f) in
                  rw
                    (
                      sent,
                      d.encoded _ _ tt e,
                      d.encoded _ _ tt f,
                      text_eq_refl contracts.fxrp,
                      d.apart,
                      text_eq_refl contracts.rule_executor,
                      text_eq_refl contracts.rule_registry,
                    )
                    refl
            ]
      ]

  -- The calls of a creation, built with the sum over the rules that the account has, leave the
  -- account with an allowance that equals the sum over its rules with the new one among them, where
  -- the encoded calls are read back as they were encoded and the token is another contract than the
  -- registry.
  pub build_create_rule_calls-sum_active_commitment :
      (p : CreateRuleParams) (calls : List Call) (now : ℕ) (sender id : Text) (a : Account)
      → build_create_rule_calls v p contracts (pos (sum_active_commitment a.rules none)) ≡ ok calls
      → (apply_calls decode contracts now sender id calls a).allowance
        ≡ sum_active_commitment (apply_calls decode contracts now sender id calls a).rules none
  build_create_rule_calls-sum_active_commitment p calls now sender id a h =
      rw
        (
          build_create_rule_calls-apply_calls p (sum_active_commitment a.rules none) calls now
              sender id a h,
          sum_active_commitment-shares (a.rules ++ new_rule id now sender p ∷ []) none,
          sum_active_commitment-shares a.rules none,
          shares-append none a.rules (new_rule id now sender p ∷ []),
        )
        (ground arith)

  -- The calls of a cancellation, built with the sum that leaves the cancelled rule out, leave the
  -- account with an allowance that equals the sum over its rules once that rule is off, where the
  -- encoded calls are read back as they were encoded and the token is another contract than the
  -- registry.
  pub build_cancel_rule_calls-sum_active_commitment :
      (rule_id : Text) (calls : List Call) (now : ℕ) (sender id : Text) (a : Account)
      → build_cancel_rule_calls v rule_id contracts
          (pos (sum_active_commitment a.rules (some rule_id)))
        ≡ ok calls
      → (apply_calls decode contracts now sender id calls a).allowance
        ≡ sum_active_commitment (apply_calls decode contracts now sender id calls a).rules none
  build_cancel_rule_calls-sum_active_commitment rule_id calls now sender id a h =
      rw
        (
          build_cancel_rule_calls-apply_calls rule_id (sum_active_commitment a.rules (some rule_id))
              calls now sender id a h,
          sum_active_commitment-shares (switch_off rule_id a.rules) none,
          sum_active_commitment-shares a.rules (some rule_id),
          shares-switch_off rule_id a.rules,
        )
        refl
