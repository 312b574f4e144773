-- ===== src/Keeper/Keeps.antt =====
-- What every change of a keeper's state in apps/keeper/src/index.ts keeps, its programs keep, on the
-- paths that throw as on the others.
use giroledger.Base.{ℕ, true, false, inl, inr, List, [], ◌∷◌, any, Bool-cases}
use giroledger.Base.Text.{Text, text_eq}
use giroledger.Base.Result.{Result-cases}
use giroledger.Keeper.Errors.{Thrown, Kind, classify, transient, permanent}
use giroledger.Keeper.Monad.{Keeper, Reason, M, ◌>>=◌, pure}
use giroledger.Keeper.{
  Config, Node, strike, strike_all, quarantined_with, clear_strikes, add_executed, settle_batch,
  quarantine_still_due, on_failure, set_pending_due, no_deposit,
}

-- The changes other than a transaction.
pub record Calm (config : Config) (P : Keeper → Type 0) : Type 0 where
  pub strikes : (id reason : Text) (k : Keeper) → P k → P (strike config id reason k)
  pub quarantines :
      (id : Text) (reason : Reason) (k : Keeper) → P k → P (quarantined_with id reason k)
  pub clears : (id : Text) (k : Keeper) → P k → P (clear_strikes id k)
  pub executes : (n : ℕ) (k : Keeper) → P k → P (add_executed n k)
  pub counts : (n : ℕ) (k : Keeper) → P k → P (set_pending_due n k)

module _ (config : Config) (P : Keeper → Type 0) (calm : Calm config P) where
  pub strike_all_keeps :
      (reason : Text) (ids : List Text) (k : Keeper) → P k → P (strike_all config reason ids k)
  strike_all_keeps reason [] k p = p
  strike_all_keeps reason (id ∷ ids) k p =
      strike_all_keeps reason ids _ (calm.strikes id reason k p)

  pub settle_batch_keeps :
      (done ids : List Text) (k : Keeper) → P k → P (settle_batch config done ids k)
  unfolding settle_batch
  settle_batch_keeps done [] k p = p
  settle_batch_keeps done (id ∷ ids) k p = elim (Bool-cases (any (text_eq id) done)) [
    | inl yes_done ↦ rw yes_done (settle_batch_keeps done ids _ (calm.clears id k p))
    | inr not_done ↦ rw not_done (settle_batch_keeps done ids _ (calm.strikes id no_deposit k p))
  ]

  pub on_failure_keeps :
      (kind : Kind) (id reason : Text) (m : M (Unit {0})) (k : Keeper)
      → P k
      → P (m k).0
      → P (on_failure kind id reason m k).0
  on_failure_keeps permanent id reason m k p q =
      calm.quarantines id (Reason.permanent_error reason) k p
  on_failure_keeps transient id reason m k p q = q

  -- The rest of the loop runs on the state that the simulation's failure leaves.
  after_failure :
      (node : Node) (e : Thrown) (id : Text) (ids : List Text) (k : Keeper)
      → ((k' : Keeper) → P k' → P (quarantine_still_due node config ids k').0)
      → P k
      → P
          ((on_failure (classify e).kind id (classify e).reason (pure tt) >>= λ _.
              quarantine_still_due node config ids)
            k).0
  after_failure node e id ids k ih p = go (classify e).kind
    where
      go :
          (kind : Kind)
          → P
              ((on_failure kind id (classify e).reason (pure tt) >>= λ _.
                  quarantine_still_due node config ids)
                k).0
      go permanent = ih _ (calm.quarantines id (Reason.permanent_error (classify e).reason) k p)
      go transient = ih k p

  pub quarantine_still_due_keeps :
      (node : Node) (ids : List Text) (k : Keeper)
      → P k
      → P (quarantine_still_due node config ids k).0
  unfolding quarantine_still_due
  quarantine_still_due_keeps node [] k p = p
  quarantine_still_due_keeps node (id ∷ ids) k p =
      let rest = quarantine_still_due_keeps node ids in
      elim (Result-cases (node.is_due id)) [
        | inr (e, threw) ↦ rw (threw, quarantine_still_due) p
        | inl (false, gone) ↦ rw (gone, quarantine_still_due) (rest k p)
        | inl (true, still) ↦ elim (Result-cases (node.simulate_execute id config.gas_per_rule)) [
          | inl (u, clean) ↦ rw (still, quarantine_still_due, clean) (rest k p)
          | inr (e, failed) ↦
              rw (still, quarantine_still_due, failed) (after_failure node e id ids k rest p)
        ]
      ]
