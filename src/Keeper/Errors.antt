-- ===== src/Keeper/Errors.antt =====
-- apps/keeper/src/errors.ts: what a failure means for the next tick, and how long to wait.
use giroledger.Base.{
  ℕ, ◌+◌, ◌*◌, ◌/◌, ◌^◌, min, Option, none, some, List, [], ◌∷◌, ◌++◌, any, take, if◌then◌else◌,
}
use giroledger.Base.Text.{Text, codes, text_eq}

-- An error as `classify` sees it: the name of the custom error where viem found one, and the message.
pub record Thrown : Type 0 where
  pub revert_name : Option Text
  pub message : Text

abbrev pub plain : Text → Thrown
plain message = record { revert_name = none; message = message }

pub data Kind : Type 0 where
  transient permanent : Kind

pub record Classified : Type 0 where
  pub kind : Kind
  pub reason : Text

abbrev pub permanent_errors : List Text
permanent_errors =
    codes "RuleNotActive"
    ∷ codes "CapExceeded"
    ∷ codes "UnknownRule"
    ∷ codes "VaultNotAllowed"
    ∷ codes "InvalidParams"
    ∷ codes "TriggerNotEnabled"
    ∷ codes "NotAccount"
    ∷ codes "NotExecutor"
    ∷ codes "NotSelf"
    ∷ codes "ERC20InsufficientAllowance"
    ∷ codes "ERC20InsufficientBalance"
    ∷ []

abbrev pub transient_errors : List Text
transient_errors = codes "RuleNotDue" ∷ codes "IsPaused" ∷ codes "ResidualBalance" ∷ []

-- `classify`. An error with no name is transient, whatever its message matches.
unfoldable pub classify : Thrown → Classified
classify e = elim e.revert_name [
  | some name ↦
      if any (text_eq name) permanent_errors
      then record { kind = permanent; reason = name }
      else (if any (text_eq name) transient_errors
          then record { kind = transient; reason = name }
          else record { kind = permanent; reason = codes "unrecognised revert: " ++ name })
  | none ↦ record { kind = transient; reason = take 200 e.message }
]

-- `backoffMs`, with `Math.random()` as the fraction `n / d`, and `Math.round` on the exact quotient.
unfoldable pub backoff_ms : (attempt base cap n d : ℕ) → ℕ
backoff_ms attempt base cap n d =
    let exp = min cap (base * 2 ^ attempt) in (exp * (d + n) + d) / (2 * d)
