-- ===== src/Store/Invariant.antt =====
-- What every operation of store.ts keeps true: each key is its entry's hash, each instruction is one
-- that its memo commits to, and the payments held stay within their limit.
use native.Mathlib.Nat.{le_trans}
use giroledger.Base.{
  ℕ, subst, ◌⊎◌, List, [], ◌∷◌, ◌≤◌, ◌≡◌, refl, arith, length, All, Option-cases, inl, inr,
  Bool-cases, Option, none, some,
}
use giroledger.Base.Text.{Text, lower}
use giroledger.Base.Dict.{
  Dict, length-delete, values, get, has, set, delete, All-set, All-delete, All-get,
}
use giroledger.Base.Result.{Result, ok, err}
use giroledger.Store.{
  PendingInstruction, OrphanPayment, InstructionStore, Input, Error, orphan_max, add, record_orphan,
  take_orphan, mark_completed, check_input, new_record, prune_orphans, FileShape, load_instructions,
  load_orphans, load, or_empty,
}
use giroledger.Store.Checks.{Committed, check_input-ok}
use giroledger.Store.Orphans.{length-prune_orphans, All-prune_orphans}

abbrev HeldPayment : Text × OrphanPayment → Type 0
HeldPayment e = e.0 ≡ lower e.1.user_op_hash

-- One call of the store, or a restart of the operator over the file it left.
pub data Op : Type 0 where
  adds : ℕ → Input → Op
  records : ℕ → (hash xrpl_tx : Text) → Op
  takes : Text → Op
  completes : (hash completed_tx xrpl_tx : Text) → Op
  restarts : ℕ → Op

module _ (keccak256 : Text → Text) where
  -- The input that an instruction came from.
  abbrev input_of : PendingInstruction → Input
  input_of i = record {
    payload = i.payload;
    memo_data = i.memo_data;
    user_op_hash = i.user_op_hash;
    total_call_value = i.total_call_value;
  }

  pub record Vetted (e : Text × PendingInstruction) : Type 0 where
    pub key : e.0 ≡ lower e.1.user_op_hash
    pub hash : e.1.user_op_hash ≡ keccak256 e.1.payload
    pub committed : Committed keccak256 (input_of e.1)

  -- An instruction that would be vetted under its own key.
  abbrev Filed : PendingInstruction → Type 0
  Filed i = Vetted (lower i.user_op_hash, i)

  abbrev FileVetted : Option FileShape → Type 0
  FileVetted none = Unit
  FileVetted (some f) = All Filed f.instructions

  pub record Inv (s : InstructionStore) : Type 0 where
    pub vetted : All Vetted s.by_hash
    pub keyed : All HeldPayment s.orphans
    pub bounded : length s.orphans ≤ orphan_max
    pub filed : FileVetted s.file

  values-Filed : (m : Dict PendingInstruction) → All Vetted m → All Filed (values m)
  values-Filed [] h = tt
  values-Filed ((k, i) ∷ m) (v, h) = (subst (λ j. Vetted (j, i)) v.key v, values-Filed m h)

  -- A store whose file was just written.
  written :
      (b : Dict PendingInstruction) (o : Dict OrphanPayment)
      → All Vetted b
      → All HeldPayment o
      → length o ≤ orphan_max
      → Inv (record {
        by_hash = b;
        orphans = o;
        file = some (record { instructions = values b; orphans = some (values o) });
      })
  written b o v k l = record { vetted = v; keyed = k; bounded = l; filed = values-Filed b v }

  new_record-Vetted :
      (now : ℕ) (i : Input)
      → Committed keccak256 i
      → Vetted (lower (keccak256 i.payload), new_record keccak256 now i)
  new_record-Vetted now i c = record {
    key = refl;
    hash = refl;
    committed = record {
      claimed = refl;
      forty_two_bytes = c.forty_two_bytes;
      opcode = c.opcode;
      commits = c.commits;
    };
  }

  check_input-cases : (c : Result Error (Unit {0})) → (c ≡ ok tt) ⊎ ((e : Error) × (c ≡ err e))
  check_input-cases (ok u) = inl refl
  check_input-cases (err e) = inr (e, refl)

  abbrev pub after_add :
      InstructionStore → Result Error (PendingInstruction × InstructionStore) → InstructionStore
  after_add s (ok (r, t)) = t
  after_add s (err e) = s

  add-Inv :
      (s : InstructionStore) (now : ℕ) (i : Input)
      → Inv s
      → Inv (after_add s (add keccak256 s now i))
  unfolding add
  add-Inv s now i v = elim (check_input-cases (check_input keccak256 i)) [
    | inl passed ↦ elim (Option-cases (get (lower (keccak256 i.payload)) s.by_hash)) [
      | inl fresh ↦
          rw (passed, fresh)
            (written _ s.orphans
              (All-set Vetted (lower (keccak256 i.payload)) (new_record keccak256 now i) s.by_hash
                (new_record-Vetted now i ((check_input-ok keccak256 i).0 passed)) v.vetted)
              v.keyed v.bounded)
      | inr (old, held) ↦ rw (passed, held) v
    ]
    | inr (e, failed) ↦ rw failed v
  ]

  record_orphan-Inv :
      (s : InstructionStore) (now : ℕ) (hash xrpl_tx : Text)
      → Inv s
      → Inv (record_orphan s now hash xrpl_tx)
  unfolding record_orphan
  record_orphan-Inv s now hash xrpl_tx v = elim (Bool-cases (has (lower hash) s.orphans)) [
    | inl there ↦ rw there v
    | inr absent ↦
        let held : OrphanPayment = record {
          user_op_hash = hash;
          xrpl_tx = xrpl_tx;
          seen_at = now;
        } in
        let more = set (lower hash) held s.orphans in
        rw absent (
          written s.by_hash (prune_orphans now more) v.vetted
            (All-prune_orphans HeldPayment now more
              (All-set HeldPayment (lower hash) held s.orphans refl v.keyed))
            (length-prune_orphans now more))
  ]

  take_orphan-Inv : (s : InstructionStore) (hash : Text) → Inv s → Inv (take_orphan s hash).1
  unfolding take_orphan
  take_orphan-Inv s hash v = elim (Option-cases (get (lower hash) s.orphans)) [
    | inl absent ↦ rw (absent, take_orphan) v
    | inr (o, found) ↦
        rw (found, take_orphan)
          (written s.by_hash (delete (lower hash) s.orphans) v.vetted
            (All-delete HeldPayment (lower hash) s.orphans v.keyed)
            (le_trans (length-delete (lower hash) s.orphans) v.bounded))
  ]

  mark_completed-Inv :
      (s : InstructionStore) (hash completed_tx xrpl_tx : Text)
      → Inv s
      → Inv (mark_completed s hash completed_tx xrpl_tx)
  unfolding mark_completed
  mark_completed-Inv s hash completed_tx xrpl_tx v =
      elim (Option-cases (get (lower hash) s.by_hash)) [
        | inl absent ↦ rw (absent, mark_completed) v
        | inr (i, found) ↦
            let old = All-get Vetted (lower hash) s.by_hash v.vetted found in
            let done : PendingInstruction = record i {
              completed_tx = some completed_tx;
              xrpl_tx = some xrpl_tx;
            } in
            rw (found, mark_completed)
              (written _ s.orphans
                (All-set Vetted (lower hash) done s.by_hash
                  (record {
                    key = old.key;
                    hash = old.hash;
                    committed = record {
                      claimed = old.committed.claimed;
                      forty_two_bytes = old.committed.forty_two_bytes;
                      opcode = old.committed.opcode;
                      commits = old.committed.commits;
                    };
                  })
                  v.vetted)
                v.keyed v.bounded)
      ]

  load_instructions-Vetted :
      (is : List PendingInstruction) (m : Dict PendingInstruction)
      → All Filed is
      → All Vetted m
      → All Vetted (load_instructions is m)
  load_instructions-Vetted [] m h v = v
  load_instructions-Vetted (i ∷ is) m h v =
      load_instructions-Vetted is (set (lower i.user_op_hash) i m) h.1
        (All-set Vetted (lower i.user_op_hash) i m h.0 v)

  load_orphans-Held :
      (os : List OrphanPayment) (m : Dict OrphanPayment)
      → All HeldPayment m
      → All HeldPayment (load_orphans os m)
  load_orphans-Held [] m v = v
  load_orphans-Held (o ∷ os) m v =
      load_orphans-Held os _ (All-set HeldPayment (lower o.user_op_hash) o m refl v)

  load-Inv : (now : ℕ) (f : Option FileShape) → FileVetted f → Inv (load now f)
  unfolding load
  load-Inv now none h = record { vetted = tt; keyed = tt; bounded = omega arith; filed = tt }
  load-Inv now (some f) h = record {
    vetted = load_instructions-Vetted f.instructions [] h tt;
    keyed = All-prune_orphans HeldPayment now _ (load_orphans-Held (or_empty f.orphans) [] tt);
    bounded = length-prune_orphans now _;
    filed = h;
  }

  unfoldable pub step : InstructionStore → Op → InstructionStore
  step s (adds now i) = after_add s (add keccak256 s now i)
  step s (records now hash xrpl_tx) = record_orphan s now hash xrpl_tx
  step s (takes hash) = (take_orphan s hash).1
  step s (completes hash completed_tx xrpl_tx) = mark_completed s hash completed_tx xrpl_tx
  step s (restarts now) = load now s.file

  unfoldable pub run : InstructionStore → List Op → InstructionStore
  run s [] = s
  run s (o ∷ os) = run (step s o) os

  step-Inv : (s : InstructionStore) (o : Op) → Inv s → Inv (step s o)
  unfolding step
  step-Inv s (adds now i) v = add-Inv s now i v
  step-Inv s (records now hash xrpl_tx) v = record_orphan-Inv s now hash xrpl_tx v
  step-Inv s (takes hash) v = take_orphan-Inv s hash v
  step-Inv s (completes hash completed_tx xrpl_tx) v =
      mark_completed-Inv s hash completed_tx xrpl_tx v
  step-Inv s (restarts now) v = load-Inv now s.file v.filed

  run_keeps : (s : InstructionStore) (os : List Op) → Inv s → Inv (run s os)
  unfolding run
  run_keeps s [] v = v
  run_keeps s (o ∷ os) v = run_keeps (step s o) os (step-Inv s o v)

  -- From an empty store, after any calls of the store with any arguments and any restarts on the
  -- file that it wrote: each instruction held stands under its hash, its hash is that of its
  -- payload and its memo commits to it; each payment held stands under its hash; and at most 500
  -- payments are held.
  pub run-Inv : (now : ℕ) (os : List Op) → Inv (run (load now none) os)
  run-Inv now os = run_keeps (load now none) os (load-Inv now none tt)
