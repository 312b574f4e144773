-- ===== src/Registry/History.antt =====
-- RuleRegistry.sol over any history of calls: what a registry that started empty keeps true.
use giroledger.Base.{ℕ, ◌≡◌, some, List, [], ◌∷◌, inl, inr}
use giroledger.Base.Text.{Text}
use giroledger.Base.Dict.{get, All-get}
use giroledger.Base.Result.{Result, ok, err, Result-cases}
use giroledger.Rules.{Rule, CreateRuleParams}
use giroledger.Rules.Status.{Sound}
use giroledger.Registry.{Registry, Revert, create_rule, cancel_rule, mark_executed}
use giroledger.Registry.Caps.{
  AllSound, create_rule-AllSound, mark_executed-AllSound, cancel_rule-AllSound,
}

-- The calls that change rules, each at its time and from its sender.
pub data Call : Type 0 where
  creates : (now : ℕ) (sender : Text) → CreateRuleParams → Call
  cancels : (sender id : Text) → Call
  runs : (now : ℕ) (sender id : Text) (amount : ℕ) → Call

abbrev pub created_or : Registry → Result Revert (Text × Registry) → Registry
created_or s (ok (id, t)) = t
created_or s (err e) = s

abbrev pub changed_or : Registry → Result Revert Registry → Registry
changed_or s (ok t) = t
changed_or s (err e) = s

-- A call that reverts changes nothing.
unfoldable pub apply : (Text → ℕ → Text) → Registry → Call → Registry
apply id_of s (creates now sender p) = created_or s (create_rule id_of s now sender p)
apply id_of s (cancels sender id) = changed_or s (cancel_rule s sender id)
apply id_of s (runs now sender id amount) = changed_or s (mark_executed s now sender id amount)

abbrev pub apply_all : (Text → ℕ → Text) → Registry → List Call → Registry
apply_all id_of s [] = s
apply_all id_of s (c ∷ cs) = apply_all id_of (apply id_of s c) cs

module _ (id_of : Text → ℕ → Text) where
  create-keeps :
      (s : Registry) (now : ℕ) (sender : Text) (p : CreateRuleParams)
      → AllSound s
      → AllSound (created_or s (create_rule id_of s now sender p))
  create-keeps s now sender p v = elim (Result-cases (create_rule id_of s now sender p)) [
    | inl ((id, t), done) ↦ rw done (create_rule-AllSound id_of s now sender p id t v done)
    | inr (e, failed) ↦ rw failed v
  ]

  cancel-keeps :
      (s : Registry) (sender id : Text)
      → AllSound s
      → AllSound (changed_or s (cancel_rule s sender id))
  cancel-keeps s sender id v = elim (Result-cases (cancel_rule s sender id)) [
    | inl (t, done) ↦ rw done (cancel_rule-AllSound s sender id t v done)
    | inr (e, failed) ↦ rw failed v
  ]

  run-keeps :
      (s : Registry) (now : ℕ) (sender id : Text) (amount : ℕ)
      → AllSound s
      → AllSound (changed_or s (mark_executed s now sender id amount))
  run-keeps s now sender id amount v = elim (Result-cases (mark_executed s now sender id amount)) [
    | inl (t, done) ↦ rw done (mark_executed-AllSound s now sender id amount t v done)
    | inr (e, failed) ↦ rw failed v
  ]

  apply_all-AllSound :
      (s : Registry) (cs : List Call) → AllSound s → AllSound (apply_all id_of s cs)
  unfolding apply
  apply_all-AllSound s [] v = v
  apply_all-AllSound s (creates now sender p ∷ cs) v =
      apply_all-AllSound (apply id_of s (creates now sender p)) cs (create-keeps s now sender p v)
  apply_all-AllSound s (cancels sender id ∷ cs) v =
      apply_all-AllSound (apply id_of s (cancels sender id)) cs (cancel-keeps s sender id v)
  apply_all-AllSound s (runs now sender id amount ∷ cs) v =
      apply_all-AllSound (apply id_of s (runs now sender id amount)) cs
        (run-keeps s now sender id amount v)

  -- From a registry without rules, after any creations, cancellations and runs, by any senders at
  -- any times, those that revert among them, every rule moves a positive amount per run, has spent
  -- no more than its cap and has made no more runs than its run cap, if it has one.
  pub apply_all-Sound :
      (s : Registry) (cs : List Call) (id : Text) (r : Rule)
      → s.rules ≡ []
      → get id (apply_all id_of s cs).rules ≡ some r
      → Sound r
  apply_all-Sound s cs id r empty found =
      All-get (λ e. Sound e.1) id (apply_all id_of s cs).rules
        (apply_all-AllSound s cs (rw empty tt)) found
