-- ===== src/Operator/Waiting.antt =====
-- No payment waits beside its instruction in apps/operator/src/index.ts: what a held payment and the
-- instructions of the store have to do with each other, over the steps of the process.
use giroledger.Base.{
  ◌≡◌, refl, ◌∙◌, Bool, true, false, not, ◌&&◌, ◌||◌, Option, none, some, List, [], ◌∷◌, arith, inl,
  inr, Option-cases, Bool-cases, any, keep, All,
}
use giroledger.Base.Text.{Text, lower, text_eq, text_eq_iff}
use giroledger.Base.Dict.{Dict, get, delete, values}
use giroledger.Store.{PendingInstruction, InstructionStore, Entry, is_none, pending, take_orphan}
use giroledger.Operator.{Operator, complete_held, start, sweep, connect}

-- A payment may be held under a hash with no instruction, and before the startup has ended also beside
-- one that is not completed.
abbrev pub unmatched : Bool → Option PendingInstruction → Bool
unmatched wired none = true
unmatched wired (some i) = not wired && is_none i.completed_tx

-- Or the instruction is among those that are still to be looked at.
abbrev pub WaitsOr : List PendingInstruction → Bool → InstructionStore → Type 0
WaitsOr is wired s =
    All
      (λ e.
        (any (λ i. text_eq (lower i.user_op_hash) e.0) is || unmatched wired (get e.0 s.by_hash))
        ≡ true)
      s.orphans

abbrev pub Keyed : Dict PendingInstruction → Type 0
Keyed m = All (λ e. e.0 ≡ lower e.1.user_op_hash) m

pub All-pointwise {κ ι} :
    (P : Entry → Type κ) (Q : Entry → Type ι) (m : List Entry)
    → ((e : Entry) → P e → Q e)
    → All P m
    → All Q m
All-pointwise P Q [] f h = tt
All-pointwise P Q (e ∷ m) f h = (f e h.0, All-pointwise P Q m f h.1)

-- Deleting a key leaves the entries of the others.
All-delete_key {κ ι} :
    (P : Entry → Type κ) (Q : Entry → Type ι) (k : Text) (m : List Entry)
    → ((e : Entry) → text_eq e.0 k ≡ false → P e → Q e)
    → All P m
    → All Q (delete k m)
All-delete_key P Q k [] f h = tt
All-delete_key P Q k (e ∷ m) f h = elim (Bool-cases (text_eq e.0 k)) [
  | inl same ↦ rw same (All-delete_key P Q k m f h.1)
  | inr other ↦ rw other (f e other h.0, All-delete_key P Q k m f h.1)
]

All-absent {κ ι} :
    (P : Entry → Type κ) (Q : Entry → Type ι) (k : Text) (m : List Entry)
    → ((e : Entry) → text_eq e.0 k ≡ false → P e → Q e)
    → get k m ≡ none
    → All P m
    → All Q m
All-absent P Q k [] f absent h = tt
All-absent P Q k (e ∷ m) f absent h = elim (Bool-cases (text_eq e.0 k)) [
  | inl same ↦ absurd (ground arith)
  | inr other ↦ (f e other h.0, All-absent P Q k m f (ground arith) h.1)
]

-- Once an instruction was looked at, no payment waits under its hash.
pub looked_at :
    (i : PendingInstruction) (is : List PendingInstruction) (wired : Bool)
    (m : Dict PendingInstruction) (e : Entry)
    → text_eq e.0 (lower i.user_op_hash) ≡ false
    → (any (λ j. text_eq (lower j.user_op_hash) e.0) (i ∷ is) || unmatched wired (get e.0 m)) ≡ true
    → (any (λ j. text_eq (lower j.user_op_hash) e.0) is || unmatched wired (get e.0 m)) ≡ true
looked_at i is wired m e other h =
    ground (arith, text_eq_iff e.0 (lower i.user_op_hash), text_eq_iff (lower i.user_op_hash) e.0)

-- What looking at one instruction leaves.
pub record Looked (i : PendingInstruction) (is : List PendingInstruction) (o t : Operator)
    : Type 0 where
  pub wired : t.wired ≡ true
  pub by_hash : t.store.by_hash ≡ o.store.by_hash
  pub waits : WaitsOr is true t.store

pub complete_held-Looked :
    (i : PendingInstruction) (is : List PendingInstruction) (o : Operator)
    → o.wired ≡ true
    → WaitsOr (i ∷ is) true o.store
    → Looked i is o (complete_held i o)
unfolding complete_held take_orphan start
complete_held-Looked i is o w h =
    let k = lower i.user_op_hash in
    elim (Option-cases (get k o.store.orphans)) [
      | inl absent ↦
          rw (w, complete_held, take_orphan, absent)
            (record {
              wired = refl;
              by_hash = refl;
              waits =
                  All-absent _ _ k o.store.orphans (looked_at i is true o.store.by_hash) absent h;
            })
      | inr (p, held) ↦
          rw (w, complete_held, take_orphan, held)
            (record {
              wired = refl;
              by_hash = refl;
              waits = All-delete_key _ _ k o.store.orphans (looked_at i is true o.store.by_hash) h;
            })
    ]

sweep-Looked :
    (is : List PendingInstruction) (o : Operator)
    → o.wired ≡ true
    → WaitsOr is true o.store
    → ((sweep is o).wired ≡ true)
      × ((sweep is o).store.by_hash ≡ o.store.by_hash)
      × WaitsOr [] true (sweep is o).store
sweep-Looked [] o w h = (w, refl, h)
sweep-Looked (i ∷ is) o w h =
    let l = complete_held-Looked i is o w h in
    let (w2, b, r) = sweep-Looked is (complete_held i o) l.wired l.waits in (w2, b ∙ l.by_hash, r)

-- An instruction that is not completed is among those of the sweep.
any-pending :
    (k : Text) (m : Dict PendingInstruction) (i : PendingInstruction)
    → Keyed m
    → get k m ≡ some i
    → is_none i.completed_tx ≡ true
    → any (λ j. text_eq (lower j.user_op_hash) k) (keep (λ j. is_none j.completed_tx) (values m))
      ≡ true
any-pending k [] i h e c = absurd (ground arith)
any-pending k ((j, v) ∷ m) i h e c = elim (Bool-cases (text_eq j k)) [
  | inl same ↦
      let found : v ≡ i = ground arith in
      let named : text_eq (lower v.user_op_hash) k ≡ true = rw (← h.0) same in
      let waiting : is_none v.completed_tx ≡ true = rw found c in rw (waiting, named) refl
  | inr other ↦
      let rest = any-pending k m i h.1 (ground arith) c in
      elim (Bool-cases (is_none v.completed_tx)) [
        | inl waiting ↦ rw waiting (ground (arith, rest))
        | inr done ↦ rw done rest
      ]
]

waits_wired :
    (m : Dict PendingInstruction) (e : Entry)
    → Keyed m
    → (false || unmatched false (get e.0 m)) ≡ true
    → (any (λ j. text_eq (lower j.user_op_hash) e.0) (keep (λ j. is_none j.completed_tx) (values m))
        || unmatched true (get e.0 m))
      ≡ true
waits_wired m e h w = elim (Option-cases (get e.0 m)) [
  | inl absent ↦ rw absent (ground arith)
  | inr (i, found) ↦
      let open_one : is_none i.completed_tx ≡ true = ground arith in
      rw (any-pending e.0 m i h found open_one) refl
]

pub connect-Looked :
    (v : Text) (o : Operator)
    → Keyed o.store.by_hash
    → WaitsOr [] false o.store
    → ((connect v o).wired ≡ true)
      × ((connect v o).store.by_hash ≡ o.store.by_hash)
      × WaitsOr [] true (connect v o).store
unfolding connect pending
connect-Looked v o k h =
    sweep-Looked (keep (λ j. is_none j.completed_tx) (values o.store.by_hash))
      (record o { health = record (o.health) { watching = some v }; wired = true }) refl
      (All-pointwise _ _ o.store.orphans (λ e. waits_wired o.store.by_hash e k) h)
