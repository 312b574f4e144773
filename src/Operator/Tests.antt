-- ===== src/Operator/Tests.antt =====
-- A run of the operator: an instruction before the end of the startup, its payment after it.
use giroledger.Base.{
  ℕ, zero, suc, ◌*◌, ◌≤◌, ◌≡◌, refl, true, false, Option, none, some, List, [], ◌∷◌, ◌++◌, length,
  All,
}
use giroledger.Base.Text.{Text, codes}
use giroledger.Base.Dict.{get}
use giroledger.Base.Result.{ok, err}
use giroledger.Memo.{normalise_tx_id, extract_memo, memo_user_op_hash}
use giroledger.Store.{
  PendingInstruction, OrphanPayment, find, add, check_input, record_orphan, take_orphan,
  mark_completed, pending, load, prune_orphans,
}
use giroledger.Operator.{
  Operator, Job, Chain, Sent, TransactionStream, complete, complete_held, finish_job, boot, settle,
  start, connect, on_instruction, asked_hash, on_transaction,
}
use giroledger.Operator.Server.{Request, Body, input_of, post_instructions, serve}
use giroledger.Operator.Steps.{Event, connects, pays, requests, finishes, run}
use giroledger.Operator.History.{run-orphans}
use giroledger.Operator.Counts.{Counted, run-Counted}
use giroledger.Operator.Completion.{complete-sent, complete_held-finish_job}

opened : Unit {0}
unfolding normalise_tx_id extract_memo memo_user_op_hash find add check_input record_orphan
    take_orphan mark_completed pending load prune_orphans complete complete_held finish_job boot
    settle start connect on_instruction asked_hash on_transaction input_of post_instructions serve
opened = tt

abbrev eights : ℕ → Text
eights zero = []
eights (suc n) = b'8' ∷ eights n

abbrev digest : Text → Text
digest t = codes "0x" ++ eights 64

abbrev memo : Text
memo = codes "FE070000000000000000" ++ eights 64

-- The body is read as this instruction, whatever it says.
abbrev parse : Text → Option Body
parse raw = some (record {
  payload = some (codes "0x5e");
  memo_data = some (codes "0x" ++ memo);
  user_op_hash = some (codes "0x" ++ eights 64);
  total_call_value = none;
})

abbrev handed_over : Request
handed_over = record {
  method = codes "POST";
  url = codes "/instructions";
  chunks = codes "{}" ∷ [];
}

abbrev paid : TransactionStream
paid = record {
  tx = some (record {
    transaction_type = codes "Payment";
    account = some (codes "rSender");
    memos = some (some memo ∷ []);
  });
  result = some (codes "tesSUCCESS");
  hash = some (codes "AB");
}

abbrev chain : Chain
chain = record {
  is_used = λ id. ok false;
  finality = λ id. ok tt;
  proof = λ id. ok (codes "proof");
  big_int = λ t. ok 0;
  estimate = λ proof payload value. ok 900_000;
  write = λ proof payload value gas. ok (codes "0xf1");
  reverted = λ hash. ok false;
}

abbrev history : List Event
history = requests 10 handed_over ∷ connects (codes "rVault") ∷ pays 20 paid ∷ finishes 0 chain ∷ []

-- The payment came first, and the instruction while the startup was not over.
abbrev late_history : List Event
late_history = connects (codes "rVault") ∷ pays 20 paid ∷ requests 30 handed_over ∷ []

history_test :
    let o = run digest parse (boot 5 none) history in
    (o.health.completed ≡ 1) × (o.health.seen ≡ 1) × (length o.jobs ≡ 0)
unfolding opened
history_test = (refl, refl, refl)

late_history_test :
    let o = run digest parse (boot 5 none) late_history in
    (length o.store.orphans ≡ 0) × (o.health.seen ≡ 1) × (length o.jobs ≡ 1)
unfolding opened
late_history_test = (refl, refl, refl)

wired : (run digest parse (boot 5 none) late_history).wired ≡ true
unfolding opened
wired = refl

run-orphans_example :
    All
      (λ e. get e.0 (run digest parse (boot 5 none) late_history).store.by_hash ≡ none)
      (run digest parse (boot 5 none) late_history).store.orphans
run-orphans_example = run-orphans digest parse 5 late_history wired

run-Counted_example : Counted (run digest parse (boot 5 none) history)
run-Counted_example = run-Counted digest parse 5 none history

abbrev instruction : PendingInstruction
instruction = record {
  user_op_hash = codes "0x" ++ eights 64;
  payload = codes "0x5e";
  total_call_value = codes "0";
  memo_data = codes "0x" ++ memo;
  added_at = 10;
  completed_tx = none;
  xrpl_tx = none;
}

abbrev job : Job
job = record { instruction = instruction; xrpl_tx = codes "AB" }

abbrev sent : Sent
sent = record {
  payload = codes "0x5e";
  proof = codes "proof";
  gas = 1_800_000;
  hash = codes "0xf1";
}

completed : complete chain job ≡ ok (some sent)
unfolding opened
completed = refl

complete-sent_example :
    (sent.payload ≡ job.instruction.payload)
    × (1_500_000 ≤ sent.gas)
    × (chain.is_used (normalise_tx_id job.xrpl_tx) ≡ ok false)
    × (chain.finality job.xrpl_tx ≡ ok tt)
    × (chain.proof (normalise_tx_id job.xrpl_tx) ≡ ok sent.proof)
    × (chain.reverted sent.hash ≡ ok false)
    × (value : ℕ) × (estimated : ℕ) × (chain.big_int job.instruction.total_call_value ≡ ok value)
    × (chain.estimate sent.proof sent.payload value ≡ ok estimated)
    × (estimated * 2 ≤ sent.gas)
    × (chain.write sent.proof sent.payload value sent.gas ≡ ok sent.hash)
complete-sent_example = complete-sent chain job sent completed

-- A chain that is out of reach when the held payment is completed.
abbrev down : Chain
down = record chain { proof = λ id. err (codes "timeout") }

abbrev orphan : OrphanPayment
orphan = record { user_op_hash = codes "0x" ++ eights 64; xrpl_tx = codes "AB"; seen_at = 20 }

abbrev holding : Operator
holding = record {
  store = record {
    by_hash = (codes "0x" ++ eights 64, instruction) ∷ [];
    orphans = (codes "0x" ++ eights 64, orphan) ∷ [];
    file = none;
  };
  health = record {
    started_at = 5;
    watching = some (codes "rVault");
    seen = 0;
    completed = 0;
    failed = 0;
    last_error = none;
  };
  wired = true;
  jobs = [];
}

not_completed : complete down job ≡ err (codes "timeout")
unfolding opened
not_completed = refl

complete_held-finish_job_example :
    let after = finish_job 0 down (complete_held instruction holding) in
    (after.jobs ≡ [])
    × ((take_orphan after.store instruction.user_op_hash).0 ≡ none)
    × (after.store.by_hash ≡ holding.store.by_hash)
    × (after.health.failed ≡ 1)
complete_held-finish_job_example =
    complete_held-finish_job down holding instruction orphan (codes "timeout") refl refl refl
      not_completed
