-- ===== src/Operator/Counts.antt =====
-- The counters of the health endpoint of apps/operator/src/server.ts over any history.
use giroledger.Base.{
  ℕ, zero, suc, ◌+◌, ◌≤◌, ◌≡◌, true, Option, none, some, List, [], ◌∷◌, arith, inl, inr,
  Option-cases, Bool-cases, length, length-append,
}
use giroledger.Base.Text.{Text}
use giroledger.Base.Result.{Result, ok, err}
use giroledger.Store.{
  PendingInstruction, OrphanPayment, InstructionStore, Input, Error, take_orphan, find, pending,
  add, FileShape,
}
use giroledger.Operator.{
  Operator, Job, Chain, Sent, TransactionStream, complete, complete_held, start, settle, finish_job,
  start_held, take_job, sweep, connect, on_instruction, on_transaction, asked_hash, boot,
  is_completed, or_unknown,
}
use giroledger.Operator.Server.{
  Request, Body, serve, Rejection, post_instructions, read_body, input_of, answer_add, answer_input,
}
use giroledger.Operator.Steps.{Event, connects, pays, requests, finishes, step, run}

abbrev pub Counted : Operator → Type 0
Counted o = o.health.completed + o.health.failed + length o.jobs ≤ o.health.seen

start-Counted : (job : Job) (o : Operator) → Counted o → Counted (start job o)
unfolding start
start-Counted job o h = omega (arith, length-append o.jobs (job ∷ []))

length-take_job :
    (n : ℕ) (js : List Job) (j : Job) (rest : List Job)
    → take_job n js ≡ some (j, rest)
    → length js ≡ length rest + 1
length-take_job n [] j rest h = absurd (ground arith)
length-take_job zero (i ∷ js) j rest h = ground arith
length-take_job (suc n) (i ∷ js) j rest h = elim (Option-cases (take_job n js)) [
  | inl e ↦ absurd (ground arith)
  | inr ((k, ks), e) ↦ ground (arith, length-take_job n js k ks e)
]

settle-Counted :
    (job : Job) (r : Result Text (Option Sent)) (o : Operator)
    → o.health.completed + o.health.failed + length o.jobs + 1 ≤ o.health.seen
    → Counted (settle job r o)
unfolding settle
settle-Counted job (ok none) o h = omega arith
settle-Counted job (ok (some sent)) o h = omega arith
settle-Counted job (err m) o h = omega arith

finish_job-Counted :
    (n : ℕ) (chain : Chain) (o : Operator) → Counted o → Counted (finish_job n chain o)
unfolding finish_job
finish_job-Counted n chain o h = elim (Option-cases (take_job n o.jobs)) [
  | inl e ↦ rw (e, finish_job) h
  | inr ((job, rest), e) ↦
      rw (e, finish_job)
        (settle-Counted job (complete chain job) (record o { jobs = rest })
          (omega (arith, length-take_job n o.jobs job rest e)))
]

start_held-Counted :
    (i : PendingInstruction) (r : Option OrphanPayment × InstructionStore) (o : Operator)
    → Counted o
    → Counted (start_held i r o)
start_held-Counted i (none, s) o h = h
start_held-Counted i (some p, s) o h = start-Counted _ (record o { store = s }) h

complete_held-Counted :
    (i : PendingInstruction) (o : Operator) → Counted o → Counted (complete_held i o)
unfolding complete_held
complete_held-Counted i o h =
    ground (arith, start_held-Counted i (take_orphan o.store i.user_op_hash) o h)

sweep-Counted : (is : List PendingInstruction) (o : Operator) → Counted o → Counted (sweep is o)
sweep-Counted [] o h = h
sweep-Counted (i ∷ is) o h = sweep-Counted is (complete_held i o) (complete_held-Counted i o h)

connect-Counted : (v : Text) (o : Operator) → Counted o → Counted (connect v o)
unfolding connect
connect-Counted v o h =
    sweep-Counted (pending o.store)
      (record o { health = record (o.health) { watching = some v }; wired = true }) h

on_instruction-Counted :
    (now : ℕ) (h x : Text) (o : Operator) → Counted o → Counted (on_instruction now h x o)
unfolding on_instruction
on_instruction-Counted now h x o c = elim (Option-cases (find o.store h)) [
  | inl e ↦ rw (e, on_instruction) c
  | inr (i, e) ↦ elim (Bool-cases (is_completed i.completed_tx)) [
    | inl done ↦ rw (e, on_instruction, done) c
    | inr waits ↦ rw (e, on_instruction, waits) (start-Counted _ o c)
  ]
]

on_transaction-Counted :
    (now : ℕ) (s : TransactionStream) (o : Operator) → Counted o → Counted (on_transaction now s o)
unfolding on_transaction
on_transaction-Counted now s o c = elim (Option-cases (asked_hash s)) [
  | inl e ↦ rw (e, on_transaction) c
  | inr (h, e) ↦ rw (e, on_transaction) (on_instruction-Counted now h (or_unknown s.hash) o c)
]

module _ (keccak256 : Text → Text) (parse : Text → Option Body) where
  answer_add-Counted :
      (r : Result Error (PendingInstruction × InstructionStore)) (o : Operator)
      → Counted o
      → Counted (answer_add keccak256 parse r o).1
  answer_add-Counted (err e) o c = c
  answer_add-Counted (ok (i, s)) o c = complete_held-Counted i (record o { store = s }) c

  answer_input-Counted :
      (now : ℕ) (r : Result Rejection Input) (o : Operator)
      → Counted o
      → Counted (answer_input keccak256 parse now r o).1
  answer_input-Counted now (err e) o c = c
  answer_input-Counted now (ok i) o c = answer_add-Counted (add keccak256 o.store now i) o c

  post-Counted :
      (now : ℕ) (chunks : List Text) (o : Operator)
      → Counted o
      → Counted (post_instructions keccak256 parse now chunks o).1
  unfolding post_instructions
  post-Counted now chunks o c = elim (Option-cases (read_body [] chunks)) [
    | inl e ↦ rw (e, post_instructions) c
    | inr (raw, e) ↦ rw (e, post_instructions) (answer_input-Counted now (input_of (parse raw)) o c)
  ]

  serve-Counted :
      (now : ℕ) (q : Request) (o : Operator) → Counted o → Counted (serve keccak256 parse now q o).1
  unfolding serve
  serve-Counted now q o c = ground (arith, post-Counted now q.chunks o c)

  step-Counted : (o : Operator) (e : Event) → Counted o → Counted (step keccak256 parse o e)
  step-Counted o (connects v) c = ground (arith, connect-Counted v o c)
  step-Counted o (pays now s) c = ground (arith, on_transaction-Counted now s o c)
  step-Counted o (requests now q) c = serve-Counted now q o c
  step-Counted o (finishes n chain) c = finish_job-Counted n chain o c

  run_counts : (o : Operator) (es : List Event) → Counted o → Counted (run keccak256 parse o es)
  run_counts o [] c = c
  run_counts o (e ∷ es) c = run_counts (step keccak256 parse o e) es (step-Counted o e c)

  -- From a process that starts over any file, after any sequence of steps: the payments completed,
  -- those failed and those that are being completed are together at most those that the health
  -- endpoint has as seen.
  pub run-Counted :
      (now : ℕ) (file : Option FileShape) (es : List Event)
      → Counted (run keccak256 parse (boot now file) es)
  unfolding boot
  run-Counted now file es = run_counts (boot now file) es (omega arith)
