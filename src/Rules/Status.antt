-- ===== src/Rules/Status.antt =====
-- The status and the remaining runs of types.ts, against the registry's own test for a due rule and
-- against the runs that the caps allow.
use native.Mathlib.Nat.{le-div_iff_mul-le}
use giroledger.Base.{ℕ, ◌+◌, ◌-◌, ◌*◌, ◌/◌, ◌≤◌, ◌<◌, ◌≡◌, ◌↔◌, ◌⊎◌, true, arith}
use giroledger.Rules.{Rule, due, exhausted, derive_status, remaining_runs}

-- What the registry keeps true of every rule that it stores.
pub record Sound (r : Rule) : Type 0 where
  pub some_amount : 0 < r.amount_per_run
  pub within_cap : r.total_spent ≤ r.total_spend_cap
  pub run_width : r.max_runs < 65_536
  pub within_runs : (r.max_runs ≡ 0) ⊎ (r.runs_done ≤ r.max_runs)

-- One more run may be made: the run cap and the spend cap both leave room.
abbrev pub HasRoom : Rule → Type 0
HasRoom r =
    ((r.max_runs ≡ 0) ⊎ (r.runs_done < r.max_runs))
    × (r.total_spent + r.amount_per_run ≤ r.total_spend_cap)

-- A rule is shown as due exactly when it is active, its time has come and both caps leave room for
-- one more run.
pub derive_status-due :
    (r : Rule) (now : ℕ)
    → (derive_status r now ≡ due) ↔ ((r.active ≡ true) × (r.next_run_at ≤ now) × HasRoom r)
unfolding derive_status
derive_status-due r now = ground arith

-- A rule is shown as exhausted exactly when one of the caps leaves no room for one more run,
-- whether it is active or not.
pub derive_status-exhausted :
    (r : Rule) (now : ℕ) → (derive_status r now ≡ exhausted) ↔ (¬ (HasRoom r))
unfolding derive_status
derive_status-exhausted r now = ground arith

-- `n` more runs fit: they stay within the spend cap and within the run cap.
abbrev pub Fits : Rule → ℕ → Type 0
Fits r n =
    (r.total_spent + n * r.amount_per_run ≤ r.total_spend_cap)
    × ((r.max_runs ≡ 0) ⊎ (r.runs_done + n ≤ r.max_runs))

-- For a rule that keeps the registry's invariants, a number is at most that of the remaining runs
-- exactly when so many more runs stay within the spend cap and, where there is one, within the run
-- cap.
pub le-remaining_runs : (r : Rule) (n : ℕ) → Sound r → (n ≤ remaining_runs r) ↔ Fits r n
unfolding remaining_runs
le-remaining_runs r n s =
    let fits : (n ≤ (r.total_spend_cap - r.total_spent) / r.amount_per_run)
        ↔ (n * r.amount_per_run ≤ r.total_spend_cap - r.total_spent) =
      le-div_iff_mul-le s.some_amount in
    ground (arith, fits, s.within_cap)

-- A rule that keeps the registry's invariants has no remaining runs exactly when it is shown as
-- exhausted.
pub remaining_runs-zero :
    (r : Rule) (now : ℕ) → Sound r → (remaining_runs r ≡ 0) ↔ (derive_status r now ≡ exhausted)
remaining_runs-zero r now s = ground (arith, derive_status-exhausted r now, le-remaining_runs r 1 s)
