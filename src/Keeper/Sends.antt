-- ===== src/Keeper/Sends.antt =====
-- One tick of apps/keeper/src/index.ts: what it keeps, and the one transaction that it may send.
use giroledger.Base.{
  ℕ, zero, suc, ◌+◌, ◌≤◌, ◌≡◌, refl, subst, ◌⊎◌, inl, inr, true, some, List, [], ◌∷◌, ◌++◌, arith,
  leb, length, any, All, All-append, Bool-cases, ◌==◌,
}
use giroledger.Base.Text.{Text}
use giroledger.Base.Dict.{has}
use giroledger.Base.Result.{ok, Result-cases}
use giroledger.Keeper.Errors.{classify}
use giroledger.Keeper.Monad.{Keeper, Submission, batch, single}
use giroledger.Keeper.Paging.{is_free}
use giroledger.Keeper.{
  Config, Node, Taken, full, more, is_deposit, deposited_ids, skipped_ids, batch_gas,
  execute_single, submit_batch, run_due, send, collect_due, take_page,
}
use giroledger.Keeper.Keeps.{
  Calm, strike_all_keeps, settle_batch_keeps, on_failure_keeps, quarantine_still_due_keeps,
}

-- The transaction that runs these rules: `execute` for one, and for more a batch with its gas.
abbrev pub IsFor : Config → List Text → Submission → Type 0
IsFor config due (single id) = due ≡ id ∷ []
IsFor config due (batch ids gas) = (ids ≡ due) × (2 ≤ length due) × (gas ≡ batch_gas config due)

abbrev pub AllFree : Keeper → List Text → Type 0
AllFree k ids = All (λ id. is_free k id ≡ true) ids

abbrev taken : Taken → List Text
taken (full ids) = ids
taken (more ids) = ids

-- `P` holds before anything is sent, and `Q` after it.
module _ (config : Config) (P Q : Keeper → Type 0) (p : Calm config P) (q : Calm config Q) where
  execute_single_moves :
      (node : Node) (id : Text) (k : Keeper)
      → (P k → Q (send (single id) k))
      → P k
      → P (execute_single node config id k).0 ⊎ Q (execute_single node config id k).0
  unfolding execute_single
  execute_single_moves node id k sends h =
      elim (Result-cases
        (node.simulate_execute id (config.gas_per_rule + config.gas_batch_overhead))) [
          | inr (e, failed) ↦
              rw (failed, execute_single)
                (inl (
                  on_failure_keeps config P p (classify e).kind id (classify e).reason _ k h
                    (p.strikes id _ k h)))
          | inl (u, clean) ↦ elim (Result-cases (node.send_execute id)) [
            | inr (e, threw) ↦ rw (clean, execute_single, threw) (inr (sends h))
            | inl (receipt, mined) ↦ elim (Bool-cases receipt.success) [
              | inr reverted ↦ rw (clean, execute_single, mined, reverted) (inr (sends h))
              | inl fine ↦ elim (Bool-cases (any is_deposit receipt.events)) [
                | inl paid ↦
                    rw (clean, execute_single, mined, fine, paid)
                      (inr (q.executes 1 _ (q.clears id _ (sends h))))
                | inr unpaid ↦
                    rw (clean, execute_single, mined, fine, unpaid)
                      (inr (q.strikes id _ _ (sends h)))
              ]
            ]
          ]
        ]

  submit_batch_moves :
      (node : Node) (due : List Text) (k : Keeper)
      → (P k → Q (send (batch due (batch_gas config due)) k))
      → P k
      → P (submit_batch node config due k).0 ⊎ Q (submit_batch node config due k).0
  unfolding submit_batch
  submit_batch_moves node due k sends h =
      elim (Result-cases (node.simulate_batch due (batch_gas config due))) [
        | inr (e, threw) ↦ rw (threw, submit_batch) (inl h)
        | inl (n, simulated) ↦ elim (Bool-cases (n == 0)) [
          | inl useless ↦
              rw (simulated, submit_batch, useless)
                (inl (
                  quarantine_still_due_keeps config P p node due _
                    (strike_all_keeps config P p _ due k h)))
          | inr useful ↦ elim (Result-cases (node.send_batch due (batch_gas config due))) [
            | inr (e, threw) ↦ rw (simulated, submit_batch, useful, threw) (inr (sends h))
            | inl (receipt, mined) ↦ elim (Bool-cases receipt.success) [
              | inr reverted ↦ rw (simulated, submit_batch, useful, mined, reverted) (inr (sends h))
              | inl fine ↦
                  rw (simulated, submit_batch, useful, mined, fine)
                    (inr (
                      quarantine_still_due_keeps config Q q node (skipped_ids receipt.events) _ (
                        q.executes (length (deposited_ids receipt.events [])) _ (
                          settle_batch_keeps config Q q (deposited_ids receipt.events []) due _
                            (sends h)))))
            ]
          ]
        ]
      ]

  pub run_due_moves :
      (node : Node) (due : List Text) (k : Keeper)
      → ((tx : Submission) → IsFor config due tx → P k → Q (send tx k))
      → P k
      → P (run_due node config due k).0 ⊎ Q (run_due node config due k).0
  unfolding run_due
  run_due_moves node [] k sends h = inl h
  run_due_moves node (id ∷ []) k sends h = execute_single_moves node id k (sends (single id) refl) h
  run_due_moves node (id ∷ other_id ∷ rest) k sends h =
      let due = id ∷ other_id ∷ rest in
      submit_batch_moves node due k
        (sends (batch due (batch_gas config due)) (refl, omega arith, refl)) h

-- What a tick collects is free, whatever the node answers.
take_page-free :
    (k : Keeper) (most : ℕ) (out ids : List Text)
    → AllFree k out
    → AllFree k (taken (take_page k most out ids))
unfolding take_page
take_page-free k most out [] h = h
take_page-free k most out (id ∷ ids) h = elim (Bool-cases (has id k.quarantine)) [
  | inl kept_out ↦ rw (kept_out, take_page) (take_page-free k most out ids h)
  | inr free ↦
      let longer : AllFree k (out ++ id ∷ []) =
        All-append (λ i. is_free k i ≡ true) out (id ∷ []) h (rw free refl, tt) in
      elim (Bool-cases (leb most (length (out ++ id ∷ [])))) [
        | inl fills ↦ rw (free, take_page, fills) longer
        | inr room ↦ rw (free, take_page, room) (take_page-free k most (out ++ id ∷ []) ids longer)
      ]
]

Taken-cases : (t : Taken) → ((a : List Text) × (t ≡ full a)) ⊎ ((a : List Text) × (t ≡ more a))
Taken-cases (full a) = inl (a, refl)
Taken-cases (more a) = inr (a, refl)

module _ (node : Node) (config : Config) (k : Keeper) where
  pub collect_due-free :
      (fuel : ℕ) (out : List Text) (offset : ℕ) (ids : List Text)
      → AllFree k out
      → collect_due fuel node config k out offset ≡ ok (some ids)
      → AllFree k ids
  unfolding collect_due
  collect_due-free zero out offset ids h e = cc
  collect_due-free (suc fuel) out offset ids h e = elim (Result-cases (node.due_rules offset 100)) [
    | inr (x, threw) ↦ absurd (cc (rw (threw, collect_due) at e))
    | inl ((page, next), read) ↦
        let free = take_page-free k config.max_batch_size out page h in
        elim (Taken-cases (take_page k config.max_batch_size out page)) [
          | inl (a, fills) ↦
              let same : a ≡ ids = cc (rw (read, collect_due, fills) at e) in
              subst (AllFree k) same (rw fills at free)
          | inr (a, room) ↦
              let free' : AllFree k a = rw room at free in
              elim (Bool-cases (leb next offset)) [
                | inl stuck ↦
                    let same : a ≡ ids = cc (rw (read, collect_due, room, stuck) at e) in
                    subst (AllFree k) same free'
                | inr on ↦ elim (Result-cases (node.total_rules next)) [
                  | inr (x, threw) ↦ absurd (cc (rw (read, collect_due, room, on, threw) at e))
                  | inl (total, counted) ↦ elim (Bool-cases (leb total next)) [
                    | inl over ↦
                        let same : a ≡ ids =
                          cc (rw (read, collect_due, room, on, counted, over) at e) in
                        subst (AllFree k) same free'
                    | inr again ↦
                        collect_due-free fuel a next ids free'
                          (rw (read, collect_due, room, on, counted, again) at e)
                  ]
                ]
              ]
        ]
  ]
