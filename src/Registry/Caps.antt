-- ===== src/Registry/Caps.antt =====
-- RuleRegistry.sol: what creation, runs and cancellation keep true of every rule, and the agreement of
-- its due test with the status of packages/shared/src/types.ts.
use native.Mathlib.Nat.{add-div_left}
use giroledger.Base.{
  ℕ, ◌+◌, ◌-◌, ◌++◌, ◌≤◌, ◌<◌, ◌≡◌, ◌↔◌, inl, inr, true, false, some, [], ◌∷◌, arith, All,
  Option-cases, Bool-cases, if◌then◌else◌,
}
use giroledger.Base.Text.{Text, text_eq_iff}
use giroledger.Base.Dict.{get, set, All-set, All-get}
use giroledger.Base.Result.{ok}
use giroledger.Rules.{Rule, CreateRuleParams, time, due, derive_status, remaining_runs}
use giroledger.Rules.Status.{Sound, derive_status-due}
use giroledger.Registry.{
  Registry, rule_is_due, create_rule, cancel_rule, after_run, mark_executed, put_rule, new_rule,
  get_or,
}

-- A rule with the time trigger is shown as due exactly when the registry would let it run.
pub derive_status-rule_is_due :
    (r : Rule) (now : ℕ)
    → r.trigger ≡ time
    → (derive_status r now ≡ due) ↔ (rule_is_due now r ≡ true)
unfolding rule_is_due
derive_status-rule_is_due r now h = ground (arith, derive_status-due r now)

abbrev pub AllSound : Registry → Type 0
AllSound s = All (λ e. Sound e.1) s.rules

pub after_run-Sound :
    (now : ℕ) (r : Rule)
    → Sound r
    → rule_is_due now r ≡ true
    → Sound (after_run now r.amount_per_run r)
unfolding rule_is_due after_run
after_run-Sound now r v h = ground arith

-- For a rule that keeps the registry's invariants and is due, a run takes exactly one from the
-- remaining runs.
pub remaining_runs-after_run :
    (now : ℕ) (r : Rule)
    → Sound r
    → rule_is_due now r ≡ true
    → remaining_runs (after_run now r.amount_per_run r) + 1 ≡ remaining_runs r
unfolding rule_is_due after_run remaining_runs
remaining_runs-after_run now r v h =
    let more =
      add-div_left (r.total_spend_cap - (r.total_spent + r.amount_per_run)) v.some_amount in
    let split : r.amount_per_run + (r.total_spend_cap - (r.total_spent + r.amount_per_run))
        ≡ r.total_spend_cap - r.total_spent =
      ground arith in
    ground (arith, more, split)

-- What a successful creation did.
pub create_rule-eq-ok :
    (id_of : Text → ℕ → Text) (s : Registry) (now : ℕ) (sender : Text) (p : CreateRuleParams)
    (id : Text) (t : Registry)
    → create_rule id_of s now sender p ≡ ok (id, t)
    → (0 < p.amount_per_run)
      × (p.amount_per_run ≤ p.total_spend_cap)
      × (p.max_runs < 65_536)
      × (t.rules ≡ set id (new_rule id now sender p) s.rules)
      × (t.all_rule_ids ≡ s.all_rule_ids ++ id ∷ [])
      × (id ≡ id_of sender (get_or 0 (get sender s.nonces)))
unfolding create_rule
create_rule-eq-ok id_of s now sender p id t h = ground arith

-- What a successful run did.
pub mark_executed-eq-ok :
    (s : Registry) (now : ℕ) (sender id : Text) (amount : ℕ) (t : Registry)
    → mark_executed s now sender id amount ≡ ok t
    → (r : Rule) × (get id s.rules ≡ some r)
      × (rule_is_due now r ≡ true)
      × (amount ≡ r.amount_per_run)
      × (t ≡ put_rule s id (after_run now amount r))
unfolding mark_executed
mark_executed-eq-ok s now sender id amount t h = elim (Option-cases (get id s.rules)) [
  | inl e ↦ absurd (ground arith)
  | inr (r, e) ↦ (r, e, ground arith, ground arith, ground arith)
]

pub cancel_rule-eq-ok :
    (s : Registry) (sender id : Text) (t : Registry)
    → cancel_rule s sender id ≡ ok t
    → (r : Rule) × (get id s.rules ≡ some r)
      × (r.account ≡ sender)
      × (t ≡ (if r.active then put_rule s id (record r { active = false }) else s))
unfolding cancel_rule
cancel_rule-eq-ok s sender id t h = elim (Option-cases (get id s.rules)) [
  | inl e ↦ absurd (ground arith)
  | inr (r, e) ↦ (
    r,
    e,
    ground (arith, text_eq_iff r.account sender),
    ground (arith, text_eq_iff r.account sender),
  )
]

-- A successful creation keeps every rule of the registry within its caps.
pub create_rule-AllSound :
    (id_of : Text → ℕ → Text) (s : Registry) (now : ℕ) (sender : Text) (p : CreateRuleParams)
    (id : Text) (t : Registry)
    → AllSound s
    → create_rule id_of s now sender p ≡ ok (id, t)
    → AllSound t
create_rule-AllSound id_of s now sender p id t v h =
    let (pos, fits, narrow, stored, _, _) = create_rule-eq-ok id_of s now sender p id t h in
    rw stored (All-set (λ e. Sound e.1) id (new_rule id now sender p) s.rules (omega arith) v)

-- A successful record of a run keeps every rule of the registry within its caps.
pub mark_executed-AllSound :
    (s : Registry) (now : ℕ) (sender id : Text) (amount : ℕ) (t : Registry)
    → AllSound s
    → mark_executed s now sender id amount ≡ ok t
    → AllSound t
mark_executed-AllSound s now sender id amount t v h =
    let (r, found, ready, exact, stored) = mark_executed-eq-ok s now sender id amount t h in
    let kept : Sound (after_run now amount r) =
      rw exact (after_run-Sound now r (All-get (λ e. Sound e.1) id s.rules v found) ready) in
    rw stored (All-set (λ e. Sound e.1) id (after_run now amount r) s.rules kept v)

-- A successful cancellation keeps every rule of the registry within its caps.
pub cancel_rule-AllSound :
    (s : Registry) (sender id : Text) (t : Registry)
    → AllSound s
    → cancel_rule s sender id ≡ ok t
    → AllSound t
cancel_rule-AllSound s sender id t v h =
    let (r, found, _, stored) = cancel_rule-eq-ok s sender id t h in
    let kept : Sound (record r { active = false }) =
      omega (arith, All-get (λ e. Sound e.1) id s.rules v found) in
    let off = All-set (λ e. Sound e.1) id (record r { active = false }) s.rules kept v in
    elim (Bool-cases r.active) [ inl on ↦ rw (stored, on) off | inr not_on ↦ rw (stored, not_on) v ]
