-- ===== src/Commitment/Reach.antt =====
-- One account over time: rules created, cancelled and run in any order, with the allowance that
-- packages/shared/src/smartAccount.ts writes and RuleExecutor.sol draws on.
use giroledger.Base.{
  ℕ, ◌+◌, ◌-◌, ◌≤◌, ◌<◌, ◌≡◌, sym, true, Option, none, some, List, [], ◌∷◌, ◌++◌, arith, All,
  All-append, Bool-cases, inl, inr,
}
use giroledger.Base.Int.{pos}
use giroledger.Base.Text.{Text}
use giroledger.Base.Result.{ok}
use giroledger.Rules.{Rule, CreateRuleParams}
use giroledger.Rules.Status.{Sound}
use giroledger.Registry.{new_rule, rule_is_due, after_run}
use giroledger.Registry.Caps.{after_run-Sound}
use giroledger.Memo.{
  Call, ContractSet, FunctionCall, Viem, build_create_rule_calls, build_cancel_rule_calls,
}
use giroledger.Commitment.{sum_active_commitment, Account, apply_calls, switch_off, is_excluded}
use giroledger.Commitment.Sums.{
  share, shares, sum_active_commitment-shares, shares-append, share-after_run,
}
use giroledger.Commitment.Coverage.{
  Decodes, build_create_rule_calls-sum_active_commitment,
  build_cancel_rule_calls-sum_active_commitment, build_create_rule_calls-apply_calls,
  build_cancel_rule_calls-apply_calls,
}

-- One change of the account. A creation that the registry takes has these three bounds, and a run draws
-- the amount of a due rule.
pub data Step (v : Viem) (decode : Text → Option FunctionCall) (contracts : ContractSet)
    (a : Account) : Account → Type 0 where
  created :
      (p : CreateRuleParams) (calls : List Call) (now : ℕ) (sender id : Text)
      → 0 < p.amount_per_run
      → p.amount_per_run ≤ p.total_spend_cap
      → p.max_runs < 65_536
      → build_create_rule_calls v p contracts (pos (sum_active_commitment a.rules none)) ≡ ok calls
      → Step v decode contracts a (apply_calls decode contracts now sender id calls a)
  cancelled :
      (rule_id : Text) (calls : List Call) (now : ℕ) (sender id : Text)
      → build_cancel_rule_calls v rule_id contracts
          (pos (sum_active_commitment a.rules (some rule_id)))
        ≡ ok calls
      → Step v decode contracts a (apply_calls decode contracts now sender id calls a)
  ran :
      (xs ys : List Rule) (r : Rule) (now : ℕ)
      → a.rules ≡ xs ++ r ∷ ys
      → rule_is_due now r ≡ true
      → r.amount_per_run ≤ a.allowance
      → Step v decode contracts a (record {
        rules = xs ++ after_run now r.amount_per_run r ∷ ys;
        allowance = a.allowance - r.amount_per_run;
      })

-- An account starts without rules and with any allowance.
pub data Reach (v : Viem) (decode : Text → Option FunctionCall) (contracts : ContractSet)
    : Account → Type 0 where
  start : {allowance : ℕ} → Reach v decode contracts (record { rules = []; allowance = allowance })
  later :
      {a b : Account}
      → Reach v decode contracts a
      → Step v decode contracts a b
      → Reach v decode contracts b

abbrev pub Covered : Account → Type 0
Covered a = All Sound a.rules × (sum_active_commitment a.rules none ≤ a.allowance)

All-switch_off : (id : Text) (rs : List Rule) → All Sound rs → All Sound (switch_off id rs)
All-switch_off id [] v = tt
All-switch_off id (r ∷ rs) (v, vs) = elim (Bool-cases (is_excluded (some id) r)) [
  | inl e ↦ (rw e (omega (arith, v)), All-switch_off id rs vs)
  | inr e ↦ (rw e v, All-switch_off id rs vs)
]

All-split : (xs ys : List Rule) → All Sound (xs ++ ys) → All Sound xs × All Sound ys
All-split [] ys v = (tt, v)
All-split (x ∷ xs) ys (v, vs) = let (l, r) = All-split xs ys vs in ((v, l), r)

-- What the rules can draw, with the share of one of them apart.
shares-of :
    (a : Account) (xs ys : List Rule) (r : Rule)
    → a.rules ≡ xs ++ r ∷ ys
    → sum_active_commitment a.rules none ≡ shares none xs + (share none r + shares none ys)
shares-of a xs ys r stored =
    rw (stored, sum_active_commitment-shares (xs ++ r ∷ ys) none) (shares-append none xs (r ∷ ys))

draw-enough :
    (a : Account) (xs ys : List Rule) (r : Rule) (now : ℕ)
    → a.rules ≡ xs ++ r ∷ ys
    → sum_active_commitment a.rules none ≤ a.allowance
    → Sound r
    → rule_is_due now r ≡ true
    → sum_active_commitment (xs ++ after_run now r.amount_per_run r ∷ ys) none
      ≤ a.allowance - r.amount_per_run
draw-enough a xs ys r now stored enough at ready =
    let next = after_run now r.amount_per_run r in
    let old = shares-of a xs ys r stored in
    let new = shares-append none xs (next ∷ ys) in
    let drawn = share-after_run now r at ready in
    rw (sum_active_commitment-shares (xs ++ next ∷ ys) none)
      (omega (arith, old, new, drawn, enough))

module _ (v : Viem) (decode : Text → Option FunctionCall) (contracts : ContractSet)
    (d : Decodes v decode contracts) where
  Step-Covered : {a b : Account} → Covered a → Step v decode contracts a b → Covered b
  Step-Covered {a} (kept, enough) (created p calls now sender id positive fits width sent) = (
    rw
        (build_create_rule_calls-apply_calls v decode contracts d p
          (sum_active_commitment a.rules none) calls now sender id a sent)
        (All-append Sound a.rules (new_rule id now sender p ∷ []) kept (omega arith, tt)),
    rw
        (build_create_rule_calls-sum_active_commitment v decode contracts d p calls now sender id a
          sent)
        (omega arith),
  )
  Step-Covered {a} (kept, enough) (cancelled rule_id calls now sender id sent) = (
    rw
        (build_cancel_rule_calls-apply_calls v decode contracts d rule_id
          (sum_active_commitment a.rules (some rule_id)) calls now sender id a sent)
        (All-switch_off rule_id a.rules kept),
    rw
        (build_cancel_rule_calls-sum_active_commitment v decode contracts d rule_id calls now sender
          id a sent)
        (omega arith),
  )
  Step-Covered {a} (kept, enough) (ran xs ys r now stored ready funded) =
      let (before, rest) = All-split xs (r ∷ ys) (rw (sym stored) kept) in
      let (at, after) = rest in
      (
        All-append Sound xs (after_run now r.amount_per_run r ∷ ys) before
            (after_run-Sound now r at ready, after),
        draw-enough a xs ys r now stored enough at ready,
      )

  -- Where the encoded calls are read back as they were encoded and the token is another contract
  -- than the registry, an account that started without rules and was changed by creations and
  -- cancellations, built with the sum over the active rules of that moment, and by runs of due
  -- rules has every rule within its caps, and an allowance of at least the sum of what its active
  -- rules can still draw.
  pub Reach-Covered : {a : Account} → Reach v decode contracts a → Covered a
  Reach-Covered start = (tt, rw (sum_active_commitment-shares [] none) (omega arith))
  Reach-Covered (later h s) = Step-Covered (Reach-Covered h) s

  -- Take an account that started without rules and was changed by creations and cancellations,
  -- whose calls were built with the sum of what its active rules could draw at that moment, and by
  -- runs of due rules. Where the encoded calls are read back as they were encoded and the token is
  -- another contract than the registry, every due rule of the account finds an allowance of at
  -- least its amount: no rule is starved by another.
  pub Reach-amount_per_run :
      (a : Account) (xs ys : List Rule) (r : Rule) (now : ℕ)
      → Reach v decode contracts a
      → a.rules ≡ xs ++ r ∷ ys
      → rule_is_due now r ≡ true
      → r.amount_per_run ≤ a.allowance
  Reach-amount_per_run a xs ys r now h stored ready =
      let (kept, enough) = Reach-Covered h in
      let (_, rest) = All-split xs (r ∷ ys) (rw (sym stored) kept) in
      let drawn = share-after_run now r rest.0 ready in
      let sum = shares-of a xs ys r stored in omega (arith, drawn, sum, enough)
