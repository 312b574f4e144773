-- ===== src/Commitment/Calldata.antt =====
-- A stand-in for the calldata encoder, which is read back, for runs on concrete inputs.
use giroledger.Base.{ℕ, ◌≡◌, refl, Option, none, some, [], ◌∷◌, if◌then◌else◌, ◌==◌}
use giroledger.Base.Int.{ℤ, pos, negsuc}
use giroledger.Base.Text.{Text}
use giroledger.Base.Result.{Result, ok}
use giroledger.Rules.{Trigger, time, price_below, price_above}
use giroledger.Commitment.Coverage.{IsSingle}
use giroledger.Memo.{FunctionCall, approve, create_rule, cancel_rule, execute_user_op, Error}

abbrev trigger_code : Trigger → ℕ
trigger_code time = 0
trigger_code price_below = 1
trigger_code price_above = 2

abbrev trigger_of : ℕ → Trigger
trigger_of n = if n == 0 then time else (if n == 1 then price_below else price_above)

trigger_of-trigger_code : (t : Trigger) → trigger_of (trigger_code t) ≡ t
trigger_of-trigger_code time = refl
trigger_of-trigger_code price_below = refl
trigger_of-trigger_code price_above = refl

abbrev sign_of : ℤ → ℕ
sign_of (pos n) = 0
sign_of (negsuc n) = 1

abbrev size_of : ℤ → ℕ
size_of (pos n) = n
size_of (negsuc n) = n

abbrev int_of : ℕ → ℕ → ℤ
int_of s n = if s == 0 then pos n else negsuc n

int_of-size_of : (z : ℤ) → int_of (sign_of z) (size_of z) ≡ z
int_of-size_of (pos n) = refl
int_of-size_of (negsuc n) = refl

abbrev pub to_calldata : FunctionCall → Result Error Text
to_calldata (approve spender amount) = ok (0 ∷ amount ∷ spender)
to_calldata (create_rule p) = ok (
    1
    ∷ p.amount_per_run
    ∷ p.total_spend_cap
    ∷ p.interval_secs
    ∷ p.max_runs
    ∷ trigger_code p.trigger
    ∷ p.start_at
    ∷ sign_of p.threshold_price
    ∷ size_of p.threshold_price
    ∷ p.vault)
to_calldata (cancel_rule rule_id) = ok (2 ∷ rule_id)
to_calldata (execute_user_op calls) = ok (3 ∷ [])

abbrev creation_of : Text → Option FunctionCall
creation_of (amount ∷ cap ∷ interval ∷ runs ∷ kind ∷ start_at ∷ sign ∷ size ∷ vault) = some (
    create_rule (record {
      vault = vault;
      amount_per_run = amount;
      total_spend_cap = cap;
      interval_secs = interval;
      max_runs = runs;
      trigger = trigger_of kind;
      start_at = start_at;
      threshold_price = int_of sign size;
    }))
creation_of _ = none

abbrev approval_of : Text → Option FunctionCall
approval_of (amount ∷ spender) = some (approve spender amount)
approval_of [] = none

abbrev pub from_calldata : Text → Option FunctionCall
from_calldata [] = none
from_calldata (c ∷ t) =
    if c == 0 then approval_of t else (if c == 1 then creation_of t else some (cancel_rule t))

abbrev sent : Text → Result Error Text
sent t = ok t

same_text : {x t : Text} → sent x ≡ sent t → x ≡ t
same_text h = cc

-- What is encoded is read back.
pub read_back :
    (f : FunctionCall) (t : Text) → IsSingle f → to_calldata f ≡ ok t → from_calldata t ≡ some f
read_back (approve spender amount) t single h = rw (← same_text h) refl
read_back (create_rule p) t single h =
    rw (← same_text h, trigger_of-trigger_code p.trigger, int_of-size_of p.threshold_price) refl
read_back (cancel_rule rule_id) t single h = rw (← same_text h) refl
read_back (execute_user_op calls) t single h = absurd single
