-- ===== src/Operator/Matching.antt =====
-- Payments and instructions of apps/operator/src/index.ts over any history of the process.
use giroledger.Base.{
  ℕ, ◌≡◌, refl, subst, true, false, ◌||◌, ◌⊎◌, none, some, [], ◌∷◌, arith, inl, inr, Option-cases,
  Bool-cases,
}
use giroledger.Base.Text.{Text, lower, text_eq, text_eq_sound}
use giroledger.Base.Dict.{Dict, get, has, set, get-set, All-set, All-get}
use giroledger.Base.Result.{ok, Result-cases}
use giroledger.Store.{
  PendingInstruction, InstructionStore, Entry, Input, find, record_orphan, mark_completed, add,
  check_input, new_record, persist,
}
use giroledger.Store.Orphans.{All-prune_orphans}
use giroledger.Operator.{Operator, Job, complete_held, start}
use giroledger.Operator.Waiting.{unmatched, WaitsOr, Keyed, All-pointwise, complete_held-Looked}

-- A process as its steps keep it: no job before the end of the startup, and no payment held beside an
-- instruction after it.
pub record Ready (o : Operator) : Type 0 where
  pub keyed : Keyed o.store.by_hash
  pub idle : (o.wired ≡ true) ⊎ (o.jobs ≡ [])
  pub waits : WaitsOr [] o.wired o.store

-- What the store looks like behind a successful `add`.
pub data Added (i : PendingInstruction) (s : InstructionStore) : InstructionStore → Type 0 where
  old : get (lower i.user_op_hash) s.by_hash ≡ some i → Added i s s
  new :
      (t : InstructionStore)
      → i.completed_tx ≡ none
      → t.by_hash ≡ set (lower i.user_op_hash) i s.by_hash
      → t.orphans ≡ s.orphans
      → Added i s t

pub add-Added :
    (keccak256 : Text → Text) (s : InstructionStore) (now : ℕ) (x : Input) (i : PendingInstruction)
    (t : InstructionStore)
    → Keyed s.by_hash
    → add keccak256 s now x ≡ ok (i, t)
    → Added i s t
unfolding add
add-Added keccak256 s now x i t k h = elim (Result-cases (check_input keccak256 x)) [
  | inr (e, f) ↦ absurd (ground arith)
  | inl (u, f) ↦ elim (Option-cases (get (lower (keccak256 x.payload)) s.by_hash)) [
    | inl fresh ↦
        let same : i ≡ new_record keccak256 now x = ground arith in
        let after : t
            ≡ persist (record s {
              by_hash = set (lower (keccak256 x.payload)) (new_record keccak256 now x) s.by_hash;
            }) =
          ground arith in
        rw (same, after) (new _ refl refl refl)
    | inr (j, held) ↦
        let one : j ≡ i = ground arith in
        let same : s ≡ t = ground arith in
        let named =
          All-get (λ e. e.0 ≡ lower e.1.user_op_hash) (lower (keccak256 x.payload)) s.by_hash k
            held in
        subst (Added i s) same (old (rw (← one, ← named) held))
  ]
]

pub record_orphan-waits :
    (now : ℕ) (h x : Text) (s : InstructionStore)
    → find s h ≡ none
    → WaitsOr [] true s
    → ((record_orphan s now h x).by_hash ≡ s.by_hash) × WaitsOr [] true (record_orphan s now h x)
unfolding record_orphan find
record_orphan-waits now h x s absent w = elim (Bool-cases (has (lower h) s.orphans)) [
  | inl there ↦ rw there (refl, w)
  | inr fresh ↦ rw fresh (
    refl,
    All-prune_orphans _ now
        (set (lower h) (record { user_op_hash = h; xrpl_tx = x; seen_at = now }) s.orphans)
        (All-set _ (lower h) (record { user_op_hash = h; xrpl_tx = x; seen_at = now }) s.orphans
          (rw absent refl) w),
  )
]

still_unmatched :
    (k : Text) (done i : PendingInstruction) (m : Dict PendingInstruction) (e : Entry)
    → get k m ≡ some i
    → (false || unmatched true (get e.0 m)) ≡ true
    → (false || unmatched true (get e.0 (set k done m))) ≡ true
still_unmatched k done i m e found h = elim (Bool-cases (text_eq k e.0)) [
  | inl same ↦
      let hit : get e.0 m ≡ some i = rw (← text_eq_sound k e.0 same) found in
      absurd (ground (arith, hit))
  | inr other ↦ rw (get-set k e.0 done m, other) h
]

pub mark_completed-waits :
    (h c x : Text) (s : InstructionStore)
    → Keyed s.by_hash
    → WaitsOr [] true s
    → Keyed (mark_completed s h c x).by_hash × WaitsOr [] true (mark_completed s h c x)
unfolding mark_completed
mark_completed-waits h c x s k w = elim (Option-cases (get (lower h) s.by_hash)) [
  | inl absent ↦ rw (absent, mark_completed) (k, w)
  | inr (i, found) ↦
      let done : PendingInstruction = record i { completed_tx = some c; xrpl_tx = some x } in
      rw (found, mark_completed)
        (
          All-set _ (lower h) done s.by_hash
              (All-get (λ e. e.0 ≡ lower e.1.user_op_hash) (lower h) s.by_hash k found) k,
          All-pointwise _ _ s.orphans (λ e. still_unmatched (lower h) done i s.by_hash e found) w,
        )
]

pub start-Ready : (job : Job) (o : Operator) → o.wired ≡ true → Ready o → Ready (start job o)
unfolding start
start-Ready job o w r = record { keyed = r.keyed; idle = inl w; waits = r.waits }

complete_held-Ready :
    (i : PendingInstruction) (o : Operator)
    → Keyed o.store.by_hash
    → o.wired ≡ true
    → WaitsOr (i ∷ []) true o.store
    → Ready (complete_held i o)
complete_held-Ready i o k w h =
    let l = complete_held-Looked i [] o w h in
    record { keyed = rw l.by_hash k; idle = inl l.wired; waits = rw l.wired l.waits }

-- Before the end of the startup a new instruction may stand beside its payment.
added_before :
    (i : PendingInstruction) (m : Dict PendingInstruction) (e : Entry)
    → i.completed_tx ≡ none
    → (false || unmatched false (get e.0 m)) ≡ true
    → (false || unmatched false (get e.0 (set (lower i.user_op_hash) i m))) ≡ true
added_before i m e fresh h =
    rw (get-set (lower i.user_op_hash) e.0 i m)
      (elim (Bool-cases (text_eq (lower i.user_op_hash) e.0)) [
        | inl same ↦ rw (same, fresh) refl
        | inr other ↦ rw other h
      ])

-- After it, the payment beside a new instruction is the one to complete.
added_after :
    (i : PendingInstruction) (m : Dict PendingInstruction) (e : Entry)
    → (false || unmatched true (get e.0 m)) ≡ true
    → ((text_eq (lower i.user_op_hash) e.0 || false)
        || unmatched true (get e.0 (set (lower i.user_op_hash) i m)))
      ≡ true
added_after i m e h =
    rw (get-set (lower i.user_op_hash) e.0 i m)
      (elim (Bool-cases (text_eq (lower i.user_op_hash) e.0)) [
        | inl same ↦ rw same refl
        | inr other ↦ rw other h
      ])

weaker :
    (i : PendingInstruction) (m : Dict PendingInstruction) (e : Entry)
    → (false || unmatched true (get e.0 m)) ≡ true
    → ((text_eq (lower i.user_op_hash) e.0 || false) || unmatched true (get e.0 m)) ≡ true
weaker i m e h = ground arith

-- An instruction is accepted, and the payment that waits for it is completed.
pub accepted-Ready :
    (i : PendingInstruction) (o : Operator) (t : InstructionStore)
    → Ready o
    → Added i o.store t
    → Ready (complete_held i (record o { store = t }))
unfolding complete_held
accepted-Ready i o t r a = elim (Bool-cases o.wired) [
  | inl w ↦
      let (k, h) = after_startup i o t r a w in complete_held-Ready i (record o { store = t }) k w h
  | inr w ↦ rw (w, complete_held) (before_startup i o t r a w)
]
  where
    after_startup :
        (i : PendingInstruction) (o : Operator) (t : InstructionStore)
        → Ready o
        → Added i o.store t
        → o.wired ≡ true
        → Keyed t.by_hash × WaitsOr (i ∷ []) true t
    after_startup i o _ r (old there) w =
        (r.keyed, All-pointwise _ _ o.store.orphans (weaker i o.store.by_hash) (rw w at r.waits))
    after_startup i o _ r (new t fresh b p) w = (
      rw b (All-set _ (lower i.user_op_hash) i o.store.by_hash refl r.keyed),
      rw (b, p)
          (All-pointwise _ _ o.store.orphans (added_after i o.store.by_hash) (rw w at r.waits)),
    )

    before_startup :
        (i : PendingInstruction) (o : Operator) (t : InstructionStore)
        → Ready o
        → Added i o.store t
        → o.wired ≡ false
        → Ready (record o { store = t; wired = false })
    before_startup i o _ r (old there) w = record {
      keyed = r.keyed;
      idle = rw w at r.idle;
      waits = rw w at r.waits;
    }
    before_startup i o _ r (new t fresh b p) w = record {
      keyed = rw b (All-set _ (lower i.user_op_hash) i o.store.by_hash refl r.keyed);
      idle = rw w at r.idle;
      waits =
          rw (b, p)
            (All-pointwise _ _ o.store.orphans (λ e. added_before i o.store.by_hash e fresh)
              (rw w at r.waits));
    }
