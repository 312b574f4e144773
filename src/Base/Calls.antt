-- ===== src/Base/Calls.antt =====
-- A chain of calls that may throw, with what was sent before: a call that throws ends the chain and
-- leaves what was sent.
use mathlib.Core.Path.{◌≡◌, refl}
use Prim.Native.Nat.{ℕ}
use mathlib.Core.List.{List}
use giroledger.Base.Result.{Result, ok, err}

-- What was sent, earliest first, and how the chain ended.
abbrev pub Run {ℓ} : (Tx : Type 0) (A : Type ℓ) → Type ℓ
Run Tx A = List Tx × Result (List ℕ) A

module _ {ℓ κ} {Tx : Type 0} {A : Type ℓ} {B : Type κ} where
  abbrev pub call : List Tx → Result (List ℕ) A → (A → Run Tx B) → Run Tx B
  call sent (ok a) next = next a
  call sent (err e) next = (sent, err e)

  -- What holds where the call throws and of all that follows its answers, holds of the chain.
  pub call_rule {μ} :
      (P : Run Tx B → Type μ) (sent : List Tx) (r : Result (List ℕ) A) (next : A → Run Tx B)
      → ((e : List ℕ) → P (sent, err e))
      → ((a : A) → r ≡ ok a → P (next a))
      → P (call sent r next)
  call_rule P sent (ok a) next stops goes = goes a refl
  call_rule P sent (err e) next stops goes = stops e
