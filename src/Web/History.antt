-- ===== src/Web/History.antt =====
-- `getExecutions` of apps/web/src/lib/flare.ts: the history of an account, read in windows of blocks,
-- latest first. The windows are asked at once; each is answered or fails on its own.
pub mod Windows
pub mod Order
pub mod Complete
use giroledger.Base.{
  ℕ, zero, suc, ◌+◌, ◌-◌, ◌*◌, Bool, true, false, Option, none, some, List, [], ◌∷◌, ◌++◌, map, ltb,
  if◌then◌else◌,
}
use giroledger.Base.Text.{Text}
use giroledger.Base.Result.{Result, ok, err, ◌>>=◌}

-- A `Deposited` event with where it stands.
pub record Log : Type 0 where
  pub rule_id : Text
  pub account : Text
  pub vault : Text
  pub amount : ℕ
  pub shares : ℕ
  pub transaction_hash : Text
  pub block_number : ℕ

pub record Execution : Type 0 where
  pub rule_id : Text
  pub vault : Text
  pub amount : ℕ
  pub shares : ℕ
  pub tx_hash : Text
  pub block_number : ℕ

pub record ExecutionHistory : Type 0 where
  pub executions : List Execution
  pub from_block : ℕ
  pub to_block : ℕ
  pub partial : Bool

-- The node: the number of the last block, and the events of an account on an executor between two
-- blocks.
pub record Logs : Type 0 where
  pub get_block_number : Result Text ℕ
  pub get_logs : (executor account : Text) (from_block to_block : ℕ) → Result Text (List Log)

abbrev pub max_log_span : ℕ
max_log_span = 30

-- `earliest`: as many blocks back as the windows hold.
abbrev pub earliest_block : (head windows : ℕ) → ℕ
earliest_block head windows =
    let span = max_log_span * windows in if ltb span head then head - span else 0

-- Where a window that ends at `to` starts.
abbrev pub window_start : (earliest to : ℕ) → ℕ
window_start earliest to =
    if ltb (earliest + max_log_span) (to + 1) then to + 1 - max_log_span else earliest

-- The loop over `to`. Where `to -= 30` goes below zero, it stops at zero here; neither is past
-- `earliest`, so the loop ends there.
unfoldable pub ranges : (fuel earliest to : ℕ) → List (ℕ × ℕ)
ranges zero earliest to = []
ranges (suc fuel) earliest to =
    let rest = ranges fuel earliest (to - max_log_span) in
    if ltb earliest to then (window_start earliest to, to) ∷ rest else []

-- The events of all windows, and whether some window failed.
unfoldable pub read_windows : (ℕ → ℕ → Result Text (List Log)) → List (ℕ × ℕ) → List Log × Bool
read_windows ask [] = ([], false)
read_windows ask ((from_block, to_block) ∷ rs) =
    let (logs, partial) = read_windows ask rs in
    elim (ask from_block to_block) [ ok ls ↦ (ls ++ logs, partial) | err e ↦ (logs, true) ]

abbrev pub to_execution : Log → Execution
to_execution l = record {
  rule_id = l.rule_id;
  vault = l.vault;
  amount = l.amount;
  shares = l.shares;
  tx_hash = l.transaction_hash;
  block_number = l.block_number;
}

-- The stable sort by falling block numbers.
unfoldable pub insert_by_block : Execution → List Execution → List Execution
insert_by_block e [] = e ∷ []
insert_by_block e (d ∷ ds) =
    if ltb e.block_number d.block_number then d ∷ insert_by_block e ds else e ∷ d ∷ ds

unfoldable pub sort_by_block : List Execution → List Execution
unfolding insert_by_block
sort_by_block [] = []
sort_by_block (e ∷ es) = insert_by_block e (sort_by_block es)

-- What the page gets, from what the windows gave.
abbrev pub history_of : (head windows : ℕ) → List Log × Bool → ExecutionHistory
history_of head windows read = record {
  executions = sort_by_block (map to_execution read.0);
  from_block = earliest_block head windows;
  to_block = head;
  partial = read.1;
}

-- As many rounds of the loop as there are windows. Without an executor nothing is asked.
unfoldable pub get_executions : Logs → Option Text → Text → ℕ → Result Text ExecutionHistory
get_executions node executor account windows = do
  head ← node.get_block_number
  ok (elim executor [
    | none ↦ history_of head windows ([], false)
    | some address ↦ history_of head windows (
        read_windows (node.get_logs address account)
          (ranges windows (earliest_block head windows) head))
  ])
