-- ===== src/Operator/Completion.antt =====
-- `complete` of apps/operator/src/index.ts: what was sent where it succeeds, and what is left where a held
-- payment fails.
use giroledger.Base.{ℕ, ◌+◌, ◌*◌, ◌≤◌, ◌≡◌, refl, true, false, none, some, [], ◌∷◌, arith, inl, inr}
use giroledger.Base.Text.{Text, lower, text_eq_refl}
use giroledger.Base.Dict.{get, delete, get-delete}
use giroledger.Base.Result.{ok, err, Result-cases}
use giroledger.Memo.{normalise_tx_id}
use giroledger.Store.{PendingInstruction, OrphanPayment, take_orphan, persist}
use giroledger.Operator.{
  Operator, Job, Chain, Sent, gas_for, complete, complete_held, start, settle, finish_job,
}

-- Where a completion succeeds, the payment was not used before and is final, and what was sent is
-- the payload of the matched instruction with the proof for that payment and the value handed over,
-- with at least twice the estimated gas and at least 1500000, in a transaction that did not revert.
pub complete-sent :
    (chain : Chain) (job : Job) (sent : Sent)
    → complete chain job ≡ ok (some sent)
    → (sent.payload ≡ job.instruction.payload)
      × (1_500_000 ≤ sent.gas)
      × (chain.is_used (normalise_tx_id job.xrpl_tx) ≡ ok false)
      × (chain.finality job.xrpl_tx ≡ ok tt)
      × (chain.proof (normalise_tx_id job.xrpl_tx) ≡ ok sent.proof)
      × (chain.reverted sent.hash ≡ ok false)
      × (value : ℕ) × (estimated : ℕ) × (chain.big_int job.instruction.total_call_value ≡ ok value)
      × (chain.estimate sent.proof sent.payload value ≡ ok estimated)
      × (estimated * 2 ≤ sent.gas)
      × (chain.write sent.proof sent.payload value sent.gas ≡ ok sent.hash)
unfolding complete
complete-sent chain job sent h = elim (Result-cases (chain.is_used (normalise_tx_id job.xrpl_tx))) [
  | inr (e, f) ↦ absurd (ground arith)
  | inl (used, f) ↦ elim (Result-cases (chain.finality job.xrpl_tx)) [
    | inr (e, f2) ↦ absurd (ground arith)
    | inl (u, f2) ↦ elim (Result-cases (chain.proof (normalise_tx_id job.xrpl_tx))) [
      | inr (e, f3) ↦ absurd (ground arith)
      | inl (proof, f3) ↦ elim (Result-cases (chain.big_int job.instruction.total_call_value)) [
        | inr (e, f4) ↦ absurd (ground arith)
        | inl (value, f4) ↦
            elim (Result-cases (chain.estimate proof job.instruction.payload value)) [
              | inr (e, f5) ↦ absurd (ground arith)
              | inl (estimated, f5) ↦
                  elim (Result-cases
                    (chain.write proof job.instruction.payload value (gas_for estimated))) [
                      | inr (e, f6) ↦ absurd (ground arith)
                      | inl (hash, f6) ↦ elim (Result-cases (chain.reverted hash)) [
                        | inr (e, f7) ↦ absurd (ground arith)
                        | inl (failed, f7) ↦ (
                          ground arith,
                          ground arith,
                          ground arith,
                          ground arith,
                          ground arith,
                          ground arith,
                          value,
                          estimated,
                          ground arith,
                          ground arith,
                          ground arith,
                          ground arith,
                        )
                      ]
                    ]
            ]
      ]
    ]
  ]
]

-- The state after a held payment was started and failed.
abbrev after_failure : PendingInstruction → Text → Operator → Operator
after_failure instruction message o = record o {
  store =
      persist
        (record (o.store) { orphans = delete (lower instruction.user_op_hash) o.store.orphans });
  health = record (o.health) {
    seen = o.health.seen + 1;
    failed = o.health.failed + 1;
    last_error = some message;
  };
}

started :
    (o : Operator) (instruction : PendingInstruction) (orphan : OrphanPayment)
    → o.wired ≡ true
    → o.jobs ≡ []
    → get (lower instruction.user_op_hash) o.store.orphans ≡ some orphan
    → complete_held instruction o ≡ record o {
      store =
          persist (record (o.store) {
            orphans = delete (lower instruction.user_op_hash) o.store.orphans;
          });
      health = record (o.health) { seen = o.health.seen + 1 };
      jobs = record { instruction = instruction; xrpl_tx = orphan.xrpl_tx } ∷ [];
    }
unfolding complete_held take_orphan start
started o instruction orphan w j held = rw (w, j, complete_held, take_orphan, held) refl

held_and_failed :
    (chain : Chain) (o : Operator) (instruction : PendingInstruction) (orphan : OrphanPayment)
    (message : Text)
    → o.wired ≡ true
    → o.jobs ≡ []
    → get (lower instruction.user_op_hash) o.store.orphans ≡ some orphan
    → complete chain (record { instruction = instruction; xrpl_tx = orphan.xrpl_tx }) ≡ err message
    → finish_job 0 chain (complete_held instruction o)
      ≡ record (after_failure instruction message o) { jobs = [] }
unfolding finish_job settle
held_and_failed chain o instruction orphan message w j held failed =
    rw (started o instruction orphan w j held, failed) refl

-- A held payment that is started and whose completion fails, with no other completion running, is
-- counted as failed and is then neither held nor being completed, though its instruction is still
-- there unchanged.
pub complete_held-finish_job :
    (chain : Chain) (o : Operator) (instruction : PendingInstruction) (orphan : OrphanPayment)
    (message : Text)
    → o.wired ≡ true
    → o.jobs ≡ []
    → get (lower instruction.user_op_hash) o.store.orphans ≡ some orphan
    → complete chain (record { instruction = instruction; xrpl_tx = orphan.xrpl_tx }) ≡ err message
    → let after = finish_job 0 chain (complete_held instruction o) in
      (after.jobs ≡ [])
      × ((take_orphan after.store instruction.user_op_hash).0 ≡ none)
      × (after.store.by_hash ≡ o.store.by_hash)
      × (after.health.failed ≡ o.health.failed + 1)
unfolding take_orphan
complete_held-finish_job chain o instruction orphan message w j held failed =
    let k = lower instruction.user_op_hash in
    let gone : get k (delete k o.store.orphans) ≡ none =
      ground (arith, get-delete k k o.store.orphans, text_eq_refl k) in
    rw (held_and_failed chain o instruction orphan message w j held failed, take_orphan, gone)
      (refl, refl, refl, refl)
