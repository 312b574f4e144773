-- ===== src/Commitment/Sums.antt =====
-- The sum of packages/shared/src/memo.ts against a plain sum, and how it moves with the rules.
use giroledger.Base.{
  ℕ, ◌+◌, ◌≤◌, ◌≡◌, refl, true, ◌&&◌, not, Option, none, some, List, [], ◌∷◌, ◌++◌, arith,
  if◌then◌else◌, Bool-cases, inl, inr,
}
use giroledger.Base.Text.{Text}
use giroledger.Rules.{Rule}
use giroledger.Rules.Status.{Sound}
use giroledger.Registry.{rule_is_due, after_run}
use giroledger.Commitment.{remaining, is_excluded, sum_from, sum_active_commitment, switch_off}

-- What a rule adds to the sum.
abbrev pub share : Option Text → Rule → ℕ
share exclude r = if r.active && not (is_excluded exclude r) then remaining r else 0

abbrev pub shares : Option Text → List Rule → ℕ
shares exclude [] = 0
shares exclude (r ∷ rs) = share exclude r + shares exclude rs

sum_from-shares :
    (exclude : Option Text) (total : ℕ) (rs : List Rule)
    → sum_from exclude total rs ≡ total + shares exclude rs
unfolding sum_from
sum_from-shares exclude total [] = omega arith
sum_from-shares exclude total (r ∷ rs) =
    elim (Bool-cases (r.active && not (is_excluded exclude r))) [
      | inl counts ↦ rw counts (omega (arith, sum_from-shares exclude (total + remaining r) rs))
      | inr skips ↦ rw skips (omega (arith, sum_from-shares exclude total rs))
    ]

pub sum_active_commitment-shares :
    (rs : List Rule) (exclude : Option Text) → sum_active_commitment rs exclude ≡ shares exclude rs
unfolding sum_active_commitment
sum_active_commitment-shares rs exclude = omega (arith, sum_from-shares exclude 0 rs)

pub shares-append :
    (exclude : Option Text) (xs ys : List Rule)
    → shares exclude (xs ++ ys) ≡ shares exclude xs + shares exclude ys
shares-append exclude [] ys = omega arith
shares-append exclude (x ∷ xs) ys = omega (arith, shares-append exclude xs ys)

-- Leaving a rule out counts what is left when that rule is switched off.
pub shares-switch_off :
    (id : Text) (rs : List Rule) → shares none (switch_off id rs) ≡ shares (some id) rs
shares-switch_off id [] = refl
shares-switch_off id (r ∷ rs) = ground (arith, shares-switch_off id rs)

-- A run takes its amount from what the rule can draw, or more when the rule ends by it.
pub share-after_run :
    (now : ℕ) (r : Rule)
    → Sound r
    → rule_is_due now r ≡ true
    → share none (after_run now r.amount_per_run r) + r.amount_per_run ≤ share none r
unfolding rule_is_due after_run
share-after_run now r v h = ground arith
