-- ===== src/Keeper.antt =====
-- apps/keeper/src/index.ts: the state of the keeper, and one tick of it. What the node answers is the
-- parameter `Node`; every call of it may throw, and what a call before the throw changed stays.
pub mod Errors
pub mod Monad
pub mod Paging
pub mod Tick
pub mod Strikes
pub mod Keeps
pub mod Sends
mod Tests
pub mod Loop
use giroledger.Base.{
  ℕ, zero, suc, ◌+◌, ◌-◌, ◌*◌, ◌/◌, Bool, true, false, not, Option, none, some, List, [], ◌∷◌, ltb,
  leb, ◌==◌, max, if◌then◌else◌, length, take, any, ◌++◌,
}
use giroledger.Base.Text.{Text, codes, text_eq}
use giroledger.Base.Dict.{Dict, get, has, set, delete}
use giroledger.Base.Result.{Result, ok, err}
use Errors.{Thrown, plain, Kind, permanent, transient, classify}
use Monad.{
  Keeper, Health, Reason, Submission, batch, single, M, ◌>>=◌, ◌>>◌, pure, throw, call, modify,
  handle,
}

pub data Event : Type 0 where
  deposited : Text → Event
  execution_skipped : Text → Event
  other : Event

pub record Receipt : Type 0 where
  pub hash : Text
  pub success : Bool
  pub events : List Event

pub record Config : Type 0 where
  pub poll_interval_ms : ℕ
  pub max_batch_size : ℕ
  pub gas_per_rule : ℕ
  pub gas_batch_overhead : ℕ
  pub max_tx_gas : ℕ
  pub max_noop_strikes : ℕ

-- The calls of the node: the registry's views, the simulations at a given gas, and the transactions.
pub record Node : Type 0 where
  pub due_rules : (offset : ℕ) → (limit : ℕ) → Result Thrown (List Text × ℕ)
  pub total_rules : (offset : ℕ) → Result Thrown ℕ
  pub is_due : Text → Result Thrown Bool
  pub simulate_execute : Text → (gas : ℕ) → Result Thrown (Unit {0})
  pub simulate_batch : List Text → (gas : ℕ) → Result Thrown ℕ
  pub send_execute : Text → Result Thrown Receipt
  pub send_batch : List Text → (gas : ℕ) → Result Thrown Receipt

abbrev pub is_deposit : Event → Bool
is_deposit (deposited id) = true
is_deposit _ = false

abbrev pub quarantined_with : Text → Reason → Keeper → Keeper
quarantined_with id reason k =
    let q = set id reason k.quarantine in
    record k { quarantine = q; health = record (k.health) { quarantined = length q } }

abbrev pub strikes_of : Option ℕ → ℕ
strikes_of none = 0
strikes_of (some n) = n

-- `strike`.
unfoldable pub strike : Config → Text → Text → Keeper → Keeper
strike config id reason k =
    let n = strikes_of (get id k.noop_strikes) + 1 in
    let struck = record k { noop_strikes = set id n k.noop_strikes } in
    if ltb n config.max_noop_strikes
    then struck
    else quarantined_with id (Reason.repeated reason n) struck

abbrev pub clear_strikes : Text → Keeper → Keeper
clear_strikes id k = record k { noop_strikes = delete id k.noop_strikes }

-- The ids taken so far: the batch is full, or more pages may be read.
pub data Taken : Type 0 where
  full more : List Text → Taken

-- The inner loop of `collectDue`, over one page.
unfoldable pub take_page : Keeper → ℕ → List Text → List Text → Taken
take_page k most out [] = more out
take_page k most out (id ∷ ids) = elim (has id k.quarantine) [
  | true ↦ take_page k most out ids
  | false ↦ elim (leb most (length (out ++ id ∷ []))) [
    | true ↦ full (out ++ id ∷ [])
    | false ↦ take_page k most (out ++ id ∷ []) ids
  ]
]

-- `collectDue`, by the pages still allowed; `none` is a loop that is not over by then.
unfoldable pub collect_due :
    ℕ → Node → Config → Keeper → List Text → ℕ → Result Thrown (Option (List Text))
collect_due zero node config k out offset = ok none
collect_due (suc fuel) node config k out offset = elim (node.due_rules offset 100) [
  | err e ↦ err e
  | ok (ids, next_offset) ↦ elim (take_page k config.max_batch_size out ids) [
    | full all ↦ ok (some all)
    | more out' ↦ elim (leb next_offset offset) [
      | true ↦ ok (some out')
      | false ↦ elim (node.total_rules next_offset) [
        | err e ↦ err e
        | ok total ↦ elim (leb total next_offset) [
          | true ↦ ok (some out')
          | false ↦ collect_due fuel node config k out' next_offset
        ]
      ]
    ]
  ]
]

-- The gas ceiling in rules. Where the overhead alone exceeds the ceiling the source has a quotient of
-- at most 0, which trims to one rule as 0 does here.
abbrev pub max_by_gas : Config → ℕ
max_by_gas config = (config.max_tx_gas - config.gas_batch_overhead) / config.gas_per_rule

unfoldable pub trim : Config → List Text → List Text
trim config all_due =
    if ltb (max_by_gas config) (length all_due)
    then take (max 1 (max_by_gas config)) all_due
    else all_due

abbrev pub batch_gas : Config → List Text → ℕ
batch_gas config due = length due * config.gas_per_rule + config.gas_batch_overhead

-- The rules that the receipt's events name, each once, as the `Set` holds them.
abbrev pub deposited_ids : List Event → List Text → List Text
deposited_ids [] seen = seen
deposited_ids (deposited id ∷ es) seen =
    deposited_ids es (if any (text_eq id) seen then seen else seen ++ id ∷ [])
deposited_ids (_ ∷ es) seen = deposited_ids es seen

abbrev pub skipped_ids : List Event → List Text
skipped_ids [] = []
skipped_ids (execution_skipped id ∷ es) = id ∷ skipped_ids es
skipped_ids (_ ∷ es) = skipped_ids es

abbrev pub strike_all : Config → Text → List Text → Keeper → Keeper
strike_all config reason [] k = k
strike_all config reason (id ∷ ids) k = strike_all config reason ids (strike config id reason k)

abbrev pub no_deposit : Text
no_deposit = codes "submitted but emitted no Deposited event"

-- The loop over a sent batch: a deposit clears the strikes, and anything else is one.
unfoldable pub settle_batch : Config → List Text → List Text → Keeper → Keeper
settle_batch config done [] k = k
settle_batch config done (id ∷ ids) k =
    settle_batch config done ids
      (if any (text_eq id) done then clear_strikes id k else strike config id no_deposit k)

abbrev pub send : Submission → Keeper → Keeper
send tx k = record k { sent = k.sent ++ tx ∷ [] }

abbrev pub add_executed : ℕ → Keeper → Keeper
add_executed n k = record k { health = record (k.health) { executed = k.health.executed + n } }

-- After a failed simulation: a permanent error puts the rule into quarantine at once.
abbrev pub on_failure : Kind → Text → Text → M (Unit {0}) → M (Unit {0})
on_failure permanent id reason other_wise =
    modify (quarantined_with id (Reason.permanent_error reason))
on_failure transient id reason other_wise = other_wise

-- `quarantineStillDue`.
unfoldable pub quarantine_still_due : Node → Config → List Text → M (Unit {0})
quarantine_still_due node config [] = pure tt
quarantine_still_due node config (id ∷ ids) = do
  still_due ← call (node.is_due id)
  if not still_due
      then pure tt
      else handle (node.simulate_execute id config.gas_per_rule) (λ _. pure tt)
          (λ e. on_failure (classify e).kind id (classify e).reason (pure tt))
  quarantine_still_due node config ids

-- `executeSingle`.
unfoldable pub execute_single : Node → Config → Text → M (Unit {0})
execute_single node config id =
    handle (node.simulate_execute id (config.gas_per_rule + config.gas_batch_overhead))
      (λ _. do
        modify (send (single id))
        receipt ← call (node.send_execute id)
        if not receipt.success
            then throw (plain (codes "execute reverted on-chain: " ++ receipt.hash))
            else pure tt
        modify (
            if any is_deposit receipt.events
            then (λ k. add_executed 1 (clear_strikes id k))
            else strike config id (codes "execute succeeded but emitted no Deposited event")))
      (λ e.
        on_failure (classify e).kind id (classify e).reason
          (modify (strike config id (codes "execute simulation failed: " ++ (classify e).reason))))

unfoldable pub submit_batch : Node → Config → List Text → M (Unit {0})
submit_batch node config due = do
  will_succeed ← call (node.simulate_batch due (batch_gas config due))
  if will_succeed == 0
      then (do
        modify (strike_all config (codes "batch simulated with succeeded = 0") due)
        quarantine_still_due node config due)
      else (do
        modify (send (batch due (batch_gas config due)))
        receipt ← call (node.send_batch due (batch_gas config due))
        if not receipt.success
            then throw (plain (codes "batch reverted on-chain: " ++ receipt.hash))
            else pure tt
        let done = deposited_ids receipt.events []
        modify (settle_batch config done due)
        modify (add_executed (length done))
        quarantine_still_due node config (skipped_ids receipt.events))

-- `tick` behind `collectDue`.
unfoldable pub run_due : Node → Config → List Text → M (Unit {0})
run_due node config due = elim due [
  | [] ↦ pure tt
  | id ∷ [] ↦ execute_single node config id
  | id ∷ second ∷ rest ↦ submit_batch node config (id ∷ second ∷ rest)
]

abbrev pub set_pending_due : ℕ → Keeper → Keeper
set_pending_due n k = record k { health = record (k.health) { pending_due = n } }

-- `tick`; `false` is a paging loop that was not over within the fuel.
unfoldable pub tick : ℕ → Node → Config → M Bool
tick fuel node config k = elim (collect_due fuel node config k [] 0) [
  | err e ↦ (k, err e)
  | ok none ↦ (k, ok false)
  | ok (some all_due) ↦
      (do
        modify (set_pending_due (length all_due))
        run_due node config (trim config all_due)
        pure true)
        k
]
