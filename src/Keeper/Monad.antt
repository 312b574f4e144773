-- ===== src/Keeper/Monad.antt =====
-- The state of apps/keeper/src/index.ts, and the calls that change it and may throw.
use giroledger.Base.{ℕ, Option, List}
use giroledger.Base.Text.{Text}
use giroledger.Base.Dict.{Dict}
use giroledger.Base.Result.{Result, ok, err}
use giroledger.Keeper.Errors.{Thrown}

pub record Health : Type 0 where
  pub started_at : ℕ
  pub last_tick_at : Option ℕ
  pub last_success_at : Option ℕ
  pub last_error : Option Text
  pub pending_due : ℕ
  pub executed : ℕ
  pub quarantined : ℕ
  pub consecutive_failures : ℕ

-- Why a rule is kept out: an error that does not pass, or so many batches without a deposit.
pub data Reason : Type 0 where
  permanent_error : Text → Reason
  repeated : Text → ℕ → Reason

-- A transaction that was sent.
pub data Submission : Type 0 where
  batch : List Text → (gas : ℕ) → Submission
  single : Text → Submission

-- The module's variables, and the transactions sent so far.
pub record Keeper : Type 0 where
  pub health : Health
  pub quarantine : Dict Reason
  pub noop_strikes : Dict ℕ
  pub sent : List Submission

abbrev pub M {ℓ} : Type ℓ → Type ℓ
M A = Keeper → Keeper × Result Thrown A

abbrev pub resume {ℓ κ} :
    {A : Type ℓ} {B : Type κ} → (A → M B) → Keeper × Result Thrown A → Keeper × Result Thrown B
resume f (k, ok a) = f a k
resume f (k, err e) = (k, err e)

infixl 5 ◌>>=◌ ◌>>◌
abbrev pub ◌>>=◌ {ℓ κ} : {A : Type ℓ} {B : Type κ} → M A → (A → M B) → M B
◌>>=◌ m f k = resume f (m k)

abbrev pub ◌>>◌ {ℓ} : {B : Type ℓ} → M (Unit {0}) → M B → M B
m >> n = m >>= λ _. n

abbrev pub pure {ℓ} : {A : Type ℓ} → A → M A
pure a k = (k, ok a)

abbrev pub throw {ℓ} : {A : Type ℓ} → Thrown → M A
throw e k = (k, err e)

-- A call of the node, which does not change the keeper.
abbrev pub call {ℓ} : {A : Type ℓ} → Result Thrown A → M A
call r k = (k, r)

abbrev pub modify : (Keeper → Keeper) → M (Unit {0})
modify f k = (f k, ok tt)

-- `try` and `catch`: the handler runs on the state that the throw left.
abbrev pub handle {ℓ κ} :
    {A : Type ℓ} {B : Type κ} → Result Thrown A → (A → M B) → (Thrown → M B) → M B
handle (ok a) f g = f a
handle (err e) f g = g e
