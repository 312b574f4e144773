-- ===== src/Operator/Steps.antt =====
-- The steps of the operator of apps/operator/src/index.ts, in any order. The handler of the stream is
-- set at the end of the startup, so a payment before that is not seen.
use giroledger.Base.{ℕ, Option, List, [], ◌∷◌, if◌then◌else◌}
use giroledger.Base.Text.{Text}
use giroledger.Operator.{Operator, Chain, TransactionStream, connect, on_transaction, finish_job}
use giroledger.Operator.Server.{Request, Body, serve}

pub data Event : Type 0 where
  connects : (core_vault : Text) → Event
  pays : ℕ → TransactionStream → Event
  requests : ℕ → Request → Event
  finishes : ℕ → Chain → Event

module _ (keccak256 : Text → Text) (parse : Text → Option Body) where
  abbrev pub step : Operator → Event → Operator
  step o (connects core_vault) = if o.wired then o else connect core_vault o
  step o (pays now stream) = if o.wired then on_transaction now stream o else o
  step o (requests now request) = (serve keccak256 parse now request o).1
  step o (finishes n chain) = finish_job n chain o

  abbrev pub run : Operator → List Event → Operator
  run o [] = o
  run o (e ∷ es) = run (step o e) es
