-- ===== src/Keeper/Tick.antt =====
-- What one tick may send, in apps/keeper/src/index.ts.
use native.Mathlib.Nat.{div-mul-le_self}
use giroledger.Base.{
  ℕ, ◌-◌, ◌*◌, ◌≤◌, ◌<◌, ◌≡◌, refl, ap, subst, ◌⊎◌, inl, inr, true, false, none, some, List, [],
  ◌∷◌, ◌++◌, arith, ltb, length, max, All-take, length-take, Bool-cases,
}
use giroledger.Base.Text.{Text}
use giroledger.Base.Dict.{has}
use giroledger.Base.Result.{Result, ok, err, Result-cases}
use giroledger.Keeper.Monad.{Keeper, Submission, batch, single, resume, pure}
use giroledger.Keeper.Errors.{Thrown}
use giroledger.Keeper.Keeps.{Calm}
use giroledger.Keeper.Sends.{IsFor, AllFree, run_due_moves, collect_due-free}
use giroledger.Keeper.{
  Config, Node, strike, max_by_gas, batch_gas, run_due, tick, trim, collect_due, set_pending_due,
}

trim-free :
    (config : Config) (k : Keeper) (ids : List Text) → AllFree k ids → AllFree k (trim config ids)
unfolding trim
trim-free config k ids h = elim (Bool-cases (ltb (max_by_gas config) (length ids))) [
  | inl over ↦ rw over (All-take _ (max 1 (max_by_gas config)) ids h)
  | inr within ↦ rw within h
]

length-trim :
    (config : Config) (ids : List Text) → length (trim config ids) ≤ max 1 (max_by_gas config)
unfolding trim
length-trim config ids = elim (Bool-cases (ltb (max_by_gas config) (length ids))) [
  | inl over ↦ rw over (omega (arith, length-take (max 1 (max_by_gas config)) ids))
  | inr within ↦ rw within (ground arith)
]

-- A trimmed batch of two or more fits the ceiling.
batch_gas-trim :
    (config : Config) (ids : List Text)
    → 0 < config.gas_per_rule
    → 2 ≤ length (trim config ids)
    → batch_gas config (trim config ids) ≤ config.max_tx_gas
batch_gas-trim config ids pos two =
    let n = length (trim config ids) in
    let fits : n ≤ max_by_gas config = omega (arith, length-trim config ids) in
    let room =
      div-mul-le_self (config.max_tx_gas - config.gas_batch_overhead) config.gas_per_rule in
    let grows : n * config.gas_per_rule ≤ max_by_gas config * config.gas_per_rule = grind arith in
    let some_gas : config.gas_per_rule ≤ n * config.gas_per_rule = grind arith in omega arith

-- What may be sent while these rules are in quarantine: a rule that is free, or at least two such
-- rules with gas for each of them under the ceiling.
abbrev pub Permitted : Config → Keeper → Submission → Type 0
Permitted config k (single id) = has id k.quarantine ≡ false
Permitted config k (batch ids gas) =
    AllFree k ids × (2 ≤ length ids) × (gas ≡ batch_gas config ids) × (gas ≤ config.max_tx_gas)

IsFor-Permitted :
    (config : Config) (k : Keeper) (ids : List Text) (tx : Submission)
    → 0 < config.gas_per_rule
    → AllFree k ids
    → IsFor config (trim config ids) tx
    → Permitted config k tx
IsFor-Permitted config k ids (single id) pos free h =
    let one : AllFree k (id ∷ []) = subst (AllFree k) h (trim-free config k ids free) in
    ground (arith, one.0)
IsFor-Permitted config k ids (batch due gas) pos free (same, two, g) =
    rw (same, g) (trim-free config k ids free, two, refl, batch_gas-trim config ids pos two)

Sent-Calm : (config : Config) (txs : List Submission) → Calm config (λ k. k.sent ≡ txs)
unfolding strike
Sent-Calm config txs = record {
  strikes = λ id reason k h. ground arith;
  quarantines = λ id reason k h. h;
  clears = λ id k h. h;
  executes = λ n k h. h;
  counts = λ n k h. h;
}

SentOne-Calm :
    (config : Config) (txs : List Submission) (P : Submission → Type 0)
    → Calm config (λ k. (tx : Submission) × (k.sent ≡ txs ++ tx ∷ []) × P tx)
unfolding strike
SentOne-Calm config txs P = record {
  strikes = λ id reason k h. (h.0, ground arith, h.2);
  quarantines = λ id reason k h. h;
  clears = λ id k h. h;
  executes = λ n k h. h;
  counts = λ n k h. h;
}

pub finish : (r : Keeper × Result Thrown (Unit {0})) → (resume (λ _. pure true) r).0 ≡ r.0
finish (k, ok u) = refl
finish (k, err e) = refl

-- With a positive gas per rule, one tick sends nothing or exactly one transaction, whatever the
-- node answers and also where it throws. The transaction is for one rule that is not in quarantine,
-- or for at least two such rules with the gas for each of them and the overhead, within the gas
-- ceiling.
pub tick-sends :
    (fuel : ℕ) (node : Node) (config : Config) (k : Keeper)
    → 0 < config.gas_per_rule
    → ((tick fuel node config k).0.sent ≡ k.sent)
      ⊎ ((tx : Submission) × ((tick fuel node config k).0.sent ≡ k.sent ++ tx ∷ [])
          × Permitted config k tx)
unfolding tick
tick-sends fuel node config k pos = elim (Result-cases (collect_due fuel node config k [] 0)) [
  | inr (e, threw) ↦ rw (threw, tick) (inl refl)
  | inl (none, long) ↦ rw (long, tick) (inl refl)
  | inl (some ids, read) ↦
      let free = collect_due-free node config k fuel [] 0 ids tt read in
      let k1 = set_pending_due (length ids) k in
      let moved =
        run_due_moves config (λ k'. k'.sent ≡ k.sent)
          (λ k'. (tx : Submission) × (k'.sent ≡ k.sent ++ tx ∷ []) × Permitted config k tx)
          (Sent-Calm config k.sent) (SentOne-Calm config k.sent (Permitted config k)) node
          (trim config ids) k1
          (λ tx is_for same.
            (tx, ap (λ s. s ++ tx ∷ []) same, IsFor-Permitted config k ids tx pos free is_for))
          refl in
      rw (read, tick, finish (run_due node config (trim config ids) k1)) moved
]
