-- ===== src/Operator/History.antt =====
-- Any history of the process of apps/operator/src/index.ts, from an empty store.
use giroledger.Base.{
  ℕ, zero, suc, ◌≡◌, refl, true, false, Option, none, some, List, [], ◌∷◌, arith, inl, inr,
  Option-cases, Bool-cases, All, if_cases, ◌||◌, ◌&&◌,
}
use giroledger.Base.Text.{Text, codes, text_eq}
use giroledger.Base.Dict.{get}
use giroledger.Base.Result.{Result, ok, err, Result-cases}
use giroledger.Store.{PendingInstruction, Input, find, add, load}
use giroledger.Operator.{
  Operator, Sent, Job, Chain, TransactionStream, complete, settle, connect, on_instruction,
  on_transaction, asked_hash, or_unknown, is_completed, take_job, finish_job, boot,
}
use giroledger.Operator.Server.{
  Request, Body, Rejection, serve, post_instructions, read_body, input_of, answer_input,
}
use giroledger.Operator.Steps.{Event, connects, pays, requests, finishes, step, run}
use giroledger.Operator.Waiting.{unmatched, All-pointwise, connect-Looked}
use giroledger.Operator.Matching.{
  Ready, add-Added, accepted-Ready, start-Ready, record_orphan-waits, mark_completed-waits,
}

on_instruction-Ready :
    (now : ℕ) (h x : Text) (o : Operator)
    → o.wired ≡ true
    → Ready o
    → Ready (on_instruction now h x o)
unfolding on_instruction
on_instruction-Ready now h x o w r = elim (Option-cases (find o.store h)) [
  | inl absent ↦
      let (b, q) = record_orphan-waits now h x o.store absent (rw w at r.waits) in
      rw (absent, on_instruction) (record { keyed = rw b r.keyed; idle = inl w; waits = rw w q })
  | inr (i, there) ↦ elim (Bool-cases (is_completed i.completed_tx)) [
    | inl done ↦ rw (there, on_instruction, done) r
    | inr waits ↦ rw (there, on_instruction, waits) (start-Ready _ o w r)
  ]
]

on_transaction-Ready :
    (now : ℕ) (s : TransactionStream) (o : Operator)
    → o.wired ≡ true
    → Ready o
    → Ready (on_transaction now s o)
unfolding on_transaction
on_transaction-Ready now s o w r = elim (Option-cases (asked_hash s)) [
  | inl e ↦ rw (e, on_transaction) r
  | inr (h, e) ↦ rw (e, on_transaction) (on_instruction-Ready now h (or_unknown s.hash) o w r)
]

connect-Ready : (v : Text) (o : Operator) → o.wired ≡ false → Ready o → Ready (connect v o)
connect-Ready v o w r =
    let (w2, b, q) = connect-Looked v o r.keyed (rw w at r.waits) in
    record { keyed = rw b r.keyed; idle = inl w2; waits = rw w2 q }

settle-Ready :
    (job : Job) (r : Result Text (Option Sent)) (o : Operator)
    → o.wired ≡ true
    → Ready o
    → Ready (settle job r o)
unfolding settle
settle-Ready job (ok none) o w r = r
settle-Ready job (ok (some sent)) o w r =
    let (k, q) =
      mark_completed-waits job.instruction.user_op_hash sent.hash job.xrpl_tx o.store r.keyed
        (rw w at r.waits) in
    record { keyed = k; idle = inl w; waits = rw w q }
settle-Ready job (err m) o w r = record { keyed = r.keyed; idle = inl w; waits = r.waits }

finish_job-Ready : (n : ℕ) (chain : Chain) (o : Operator) → Ready o → Ready (finish_job n chain o)
unfolding finish_job
finish_job-Ready n chain o r = elim (Option-cases (take_job n o.jobs)) [
  | inl e ↦ rw (e, finish_job) r
  | inr ((job, rest), e) ↦
      let w : o.wired ≡ true = some_job n o job rest r e in
      rw (e, finish_job)
        (settle-Ready job (complete chain job) (record o { jobs = rest }) w
          (record { keyed = r.keyed; idle = inl w; waits = r.waits }))
]
  where
    nothing_taken : (n : ℕ) → take_job n [] ≡ none
    nothing_taken zero = refl
    nothing_taken (suc n) = refl

    some_job :
        (n : ℕ) (o : Operator) (job : Job) (rest : List Job)
        → Ready o
        → take_job n o.jobs ≡ some (job, rest)
        → o.wired ≡ true
    some_job n o job rest r e = elim r.idle [
      | inl w ↦ w
      | inr j ↦ absurd (ground (arith, rw j at e, nothing_taken n))
    ]

module _ (keccak256 : Text → Text) (parse : Text → Option Body) where
  answer_input-Ready :
      (now : ℕ) (q : Result Rejection Input) (o : Operator)
      → Ready o
      → Ready (answer_input keccak256 parse now q o).1
  answer_input-Ready now (err e) o r = r
  answer_input-Ready now (ok x) o r = elim (Result-cases (add keccak256 o.store now x)) [
    | inr (e, f) ↦ rw f r
    | inl ((i, t), f) ↦
        rw f (accepted-Ready i o t r (add-Added keccak256 o.store now x i t r.keyed f))
  ]

  post-Ready :
      (now : ℕ) (chunks : List Text) (o : Operator)
      → Ready o
      → Ready (post_instructions keccak256 parse now chunks o).1
  unfolding post_instructions
  post-Ready now chunks o r = elim (Option-cases (read_body [] chunks)) [
    | inl e ↦ rw (e, post_instructions) r
    | inr (raw, e) ↦ rw (e, post_instructions) (answer_input-Ready now (input_of (parse raw)) o r)
  ]

  serve-Ready :
      (now : ℕ) (q : Request) (o : Operator) → Ready o → Ready (serve keccak256 parse now q o).1
  unfolding serve
  serve-Ready now q o r = elim (Bool-cases (text_eq q.method (codes "OPTIONS"))) [
    | inl a ↦ rw a r
    | inr a ↦
        elim (Bool-cases (text_eq q.method (codes "GET") && text_eq q.url (codes "/health"))) [
          | inl b ↦ rw (a, b) r
          | inr b ↦
              elim (Bool-cases
                (text_eq q.method (codes "POST") && text_eq q.url (codes "/instructions"))) [
                  | inl c ↦ rw (a, b, c) (post-Ready now q.chunks o r)
                  | inr c ↦ rw (a, b, c) r
                ]
        ]
  ]

  step-Ready : (o : Operator) (e : Event) → Ready o → Ready (step keccak256 parse o e)
  step-Ready o (connects v) r =
      if_cases Ready o.wired o (connect v o) (λ w. r) (λ w. connect-Ready v o w r)
  step-Ready o (pays now s) r =
      if_cases Ready o.wired (on_transaction now s o) o (λ w. on_transaction-Ready now s o w r)
        (λ w. r)
  step-Ready o (requests now q) r = serve-Ready now q o r
  step-Ready o (finishes n chain) r = finish_job-Ready n chain o r

  run_keeps : (o : Operator) (es : List Event) → Ready o → Ready (run keccak256 parse o es)
  run_keeps o [] r = r
  run_keeps o (e ∷ es) r = run_keeps (step keccak256 parse o e) es (step-Ready o e r)

  boot-Ready : (now : ℕ) → Ready (boot now none)
  unfolding boot load
  boot-Ready now = record { keyed = tt; idle = inr refl; waits = tt }

  no_instruction : (m : Option PendingInstruction) → (false || unmatched true m) ≡ true → m ≡ none
  no_instruction none h = refl
  no_instruction (some i) h = absurd (ground arith)

  -- From a process that starts with an empty store, after any sequence of instructions handed over,
  -- payments, ends of the startup and ends of completions, with any answers of the chain: once the
  -- startup is over, no payment is held under the hash of an instruction that the store has. What
  -- came first, payment or instruction, does not matter.
  pub run-orphans :
      (now : ℕ) (es : List Event)
      → (run keccak256 parse (boot now none) es).wired ≡ true
      → All
          (λ e. get e.0 (run keccak256 parse (boot now none) es).store.by_hash ≡ none)
          (run keccak256 parse (boot now none) es).store.orphans
  run-orphans now es w =
      let o = run keccak256 parse (boot now none) es in
      All-pointwise _ _ o.store.orphans (λ e. no_instruction (get e.0 o.store.by_hash))
        (rw w at (run_keeps (boot now none) es (boot-Ready now)).waits)
