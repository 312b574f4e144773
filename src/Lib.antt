-- ===== src/Lib.antt =====
-- GiroLedger: standing orders that buy yield with FXRP, steered by XRP Ledger payments. A user
-- signs a payment whose memo commits to one user operation; the operator (apps/operator) holds the
-- operation that was handed over in advance and completes the payment on Flare; the operation sets
-- up or cancels a rule in the registry (contracts) and one token allowance for all rules of the
-- account; the keeper (apps/keeper) runs the rules that are due.
--
-- Base: tests on native numbers, lists, texts as lists of character codes, JavaScript maps in
-- insertion order (Base/Dict), signed numbers and results with errors.
--
-- Rules: packages/shared/src/types.ts. `derive_status` is deriveStatus and `remaining_runs` is
-- remainingRuns; amounts are natural numbers.
--
-- Registry: contracts/src/RuleRegistry.sol, the calls that the services rely on: createRule,
-- cancelRule, markExecuted, isDue, dueRules. The clock and the caller are arguments, and a revert
-- is a value. Owner-only setters are left out.
--
-- Memo: packages/shared/src/smartAccount.ts and memo.ts, with memoUserOpHash of
-- apps/operator/src/store.ts and extractMemo and normaliseTxId of
-- apps/operator/src/handlePayment.ts. The encoders and the hash of viem are the parameter `Viem`;
-- `ViemLaws` states the form of what they return.
--
-- Commitment: sumActiveCommitment of packages/shared/src/memo.ts, and the account on chain as the
-- calls of an instruction and the runs of its rules change it (Commitment/Coverage,
-- Commitment/Reach).
--
-- Store: InstructionStore of apps/operator/src/store.ts, every operation. The file is a value of
-- the state, and a restart loads it. `JSON.stringify` and `JSON.parse` are taken as inverse to each
-- other; the hash is a parameter.
--
-- Operator: apps/operator/src/index.ts and server.ts. `completeHeld` is `complete_held`, the
-- handler of the stream is `on_transaction`, the startup's end with its sweep is `connect`.
-- `complete` waits minutes for the chain, so it is two steps: a job is added when it starts, and
-- `finish_job` ends it at any later time with the answers of the parameter `Chain`. Operator/Server
-- has the routes; `JSON.parse` is a parameter there. Operator/Steps puts the steps in any order.
--
-- Flow: apps/operator/src/createRule.ts and cancelRule.ts up to the payment (`prepare_create`,
-- `prepare_cancel`), with computeDirectMintingPaymentUBA of packages/shared/src/directMinting.ts
-- and quoteFor of apps/web/src/lib/flare.ts. All reads of the chain and the ledger are the
-- parameter `World`. Amounts are in drops; the way to XRP and back in floating point is not
-- modelled. Flow/Waits has the loops: waitForXrplFinality runs on fuel, and a poll that sees the
-- ledger far enough within the fuel is enough; the sixty polls for the proof count down;
-- computeRoundId is for blocks not before the first round. The answer to a poll is a function of
-- its number.
--
-- Keeper: apps/keeper/src/index.ts and errors.ts. A tick is a computation on the keeper's state in
-- which every call of the node may throw; what was changed before the throw stays (Keeper/Monad).
-- The node's answers are fixed for one tick. The loop over the pages runs on fuel: one more page
-- than the registry has rules is enough. The power in the back-off is the exact one, and its random
-- factor a fraction below 1. The check for a wallet without an account is left out, since the
-- wallet is built with one.
--
-- Attest: apps/operator/src/fdc.ts and handleIncomingPayment of handlePayment.ts. A chain of calls
-- that may throw keeps what it sent (Base/Calls). waitForFinalization runs on fuel for 32 polls,
-- one more than its five minutes allow at ten seconds each (Attest/Finalization).
--
-- Flow/Deliver: the rest of createRule and cancelRule behind the payment, from submitAndWait to the
-- receipt, with fetchXrpPaymentProof. The part before it is asked again for the addresses that it
-- looked up.
--
-- Web: apps/web/src. Web/Numbers has `BigInt` and `Number` on texts, the latter rounded to the
-- nearest double, Web/Format is lib/format.ts, Web/Chain and Web/History are lib/flare.ts, Web/Page
-- is routes/app.tsx: its state, the effect on mount, `resolve` with nothing else in between and the
-- states that it renders (`rendered`); Web/Page/View has `params`, the instructions, the quotes and
-- what is shown. Web/Register is the effect that hands the instruction over, with answers in any
-- order, and Web/Wallet is components/SendWithGemWallet.tsx. The loop over the windows of the
-- history runs as often as there are windows, which reach back as far as the first block named.
--
-- Rules/Params: the schema of packages/shared/src/types.ts. Store/Spec: the table that the store
-- refines. Store/Pruned: which held payments are taken away. Store/Handover: the memos that are
-- built against the checks of the store.
--
-- Limits: the windows and the pre-flight of apps/operator/src/spike/mintLimits.ts. What the asset
-- manager is asked for is the record `Limiters`; the amounts are natural numbers.
--
-- Not modelled: logging, HTTP and WebSocket transport, signal handling, the layout and texts of the
-- web pages and the routes other than app.tsx, the ABI descriptions, the configuration readers, the
-- other scripts of apps/operator/src/spike and RuleExecutor.sol, whose calls are parameters.
pub mod Attest
pub mod Base
pub mod Commitment
pub mod Flow
pub mod Keeper
pub mod Limits
pub mod Memo
pub mod Operator
pub mod Registry
pub mod Rules
pub mod Store
pub mod Web
