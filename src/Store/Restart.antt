-- ===== src/Store/Restart.antt =====
-- A restart of the operator over the file of apps/operator/src/store.ts: the instructions come back as
-- they were, in their order.
use mathlib.Core.List.{append_assoc, append-nil}
use giroledger.Base.{
  ℕ, ◌≡◌, refl, sym, ap, ◌∙◌, false, List, [], ◌∷◌, ◌++◌, arith, All, Option, none, some,
  Option-cases, Bool-cases, inl, inr, subst,
}
use giroledger.Base.Text.{Text, lower, text_eq_iff}
use giroledger.Base.Dict.{Dict, get, has, set, values, set_fresh, All-set, All-get, delete}
use giroledger.Base.Keys.{Distinct, Distinct-set, has-append}
use giroledger.Base.Result.{Result-cases}
use giroledger.Store.{
  PendingInstruction, OrphanPayment, InstructionStore, Input, FileShape, load_instructions, load,
  add, record_orphan, take_orphan, mark_completed, check_input, new_record,
}
use giroledger.Store.Invariant.{Op, adds, records, takes, completes, restarts, step, run, after_add}

-- Each instruction stands under its own hash.
abbrev pub Filed : Dict PendingInstruction → Type 0
Filed m = All (λ e. e.0 ≡ lower e.1.user_op_hash) m

All-has-append :
    (acc : Dict PendingInstruction) (k : Text) (i : PendingInstruction)
    (m : Dict PendingInstruction)
    → has k m ≡ false
    → All (λ e. has e.0 acc ≡ false) m
    → All (λ e. has e.0 (acc ++ (k, i) ∷ []) ≡ false) m
All-has-append acc k i [] h a = tt
All-has-append acc k i ((j, v) ∷ m) h a = (
  has-append j acc ((k, i) ∷ []) a.0 (ground (arith, text_eq_iff j k, text_eq_iff k j)),
  All-has-append acc k i m (ground arith) a.1,
)

load_instructions-values :
    (m acc : Dict PendingInstruction)
    → Distinct m
    → Filed m
    → All (λ e. has e.0 acc ≡ false) m
    → load_instructions (values m) acc ≡ acc ++ m
load_instructions-values [] acc d f a = sym (append-nil acc)
load_instructions-values ((k, i) ∷ m) acc d f a =
    let goes_last : set (lower i.user_op_hash) i acc ≡ acc ++ (k, i) ∷ [] =
      subst (λ j. set j i acc ≡ acc ++ (k, i) ∷ []) f.0 (set_fresh k i acc a.0) in
    ap (load_instructions (values m)) goes_last
    ∙ load_instructions-values m (acc ++ (k, i) ∷ []) d.1 f.1 (All-has-append acc k i m d.0 a.1)
    ∙ append_assoc acc ((k, i) ∷ []) m

absent : (m : Dict PendingInstruction) → All (λ e. has {V = PendingInstruction} e.0 [] ≡ false) m
absent [] = tt
absent (e ∷ m) = (refl, absent m)

-- What `persist` writes is read back as it was.
pub load-image :
    (m : Dict PendingInstruction) → Distinct m → Filed m → load_instructions (values m) [] ≡ m
load-image m d f = load_instructions-values m [] d f (absent m)

abbrev pub on_file : Option FileShape → Dict PendingInstruction
on_file none = []
on_file (some f) = load_instructions f.instructions []

-- The file holds the instructions of the store.
pub record Synced (s : InstructionStore) : Type 0 where
  pub distinct : Distinct s.by_hash
  pub filed : Filed s.by_hash
  pub same : on_file s.file ≡ s.by_hash

-- A change of the instructions that is written.
written :
    (m : Dict PendingInstruction) (o : Dict OrphanPayment)
    → Distinct m
    → Filed m
    → Synced (record {
      by_hash = m;
      orphans = o;
      file = some (record { instructions = values m; orphans = some (values o) });
    })
written m o d f = record { distinct = d; filed = f; same = load-image m d f }

add-Synced :
    (keccak256 : Text → Text) (s : InstructionStore) (now : ℕ) (i : Input)
    → Synced s
    → Synced (after_add keccak256 s (add keccak256 s now i))
unfolding add
add-Synced keccak256 s now i v = elim (Result-cases (check_input keccak256 i)) [
  | inr (e, failed) ↦ rw failed v
  | inl (u, passed) ↦ elim (Option-cases (get (lower (keccak256 i.payload)) s.by_hash)) [
    | inr (old, held) ↦ rw (passed, held) v
    | inl fresh ↦
        let key = lower (keccak256 i.payload) in
        let new = new_record keccak256 now i in
        rw (passed, fresh)
          (written (set key new s.by_hash) s.orphans (Distinct-set key new s.by_hash v.distinct)
            (All-set _ key new s.by_hash refl v.filed))
  ]
]

record_orphan-Synced :
    (s : InstructionStore) (now : ℕ) (hash xrpl_tx : Text)
    → Synced s
    → Synced (record_orphan s now hash xrpl_tx)
unfolding record_orphan
record_orphan-Synced s now hash xrpl_tx v = elim (Bool-cases (has (lower hash) s.orphans)) [
  | inl there ↦ rw there v
  | inr fresh ↦ rw fresh (written s.by_hash _ v.distinct v.filed)
]

take_orphan-Synced : (s : InstructionStore) (hash : Text) → Synced s → Synced (take_orphan s hash).1
unfolding take_orphan
take_orphan-Synced s hash v = elim (Option-cases (get (lower hash) s.orphans)) [
  | inl none_held ↦ rw (none_held, take_orphan) v
  | inr (o, found) ↦
      rw (found, take_orphan) (written s.by_hash (delete (lower hash) s.orphans) v.distinct v.filed)
]

mark_completed-Synced :
    (s : InstructionStore) (hash c x : Text) → Synced s → Synced (mark_completed s hash c x)
unfolding mark_completed
mark_completed-Synced s hash c x v = elim (Option-cases (get (lower hash) s.by_hash)) [
  | inl none_held ↦ rw (none_held, mark_completed) v
  | inr (i, found) ↦
      let done : PendingInstruction = record i { completed_tx = some c; xrpl_tx = some x } in
      rw (found, mark_completed)
        (written (set (lower hash) done s.by_hash) s.orphans
          (Distinct-set (lower hash) done s.by_hash v.distinct)
          (All-set _ (lower hash) done s.by_hash
            (All-get (λ e. e.0 ≡ lower e.1.user_op_hash) (lower hash) s.by_hash v.filed found)
            v.filed))
]

-- After a restart the store has the instructions of its file.
pub by_hash-load : (now : ℕ) (f : Option FileShape) → (load now f).by_hash ≡ on_file f
unfolding load
by_hash-load now none = refl
by_hash-load now (some f) = refl

file-load : (now : ℕ) (f : Option FileShape) → (load now f).file ≡ f
unfolding load
file-load now none = refl
file-load now (some f) = refl

load-Synced : (now : ℕ) (s : InstructionStore) → Synced s → Synced (load now s.file)
load-Synced now s v =
    let back : (load now s.file).by_hash ≡ s.by_hash = by_hash-load now s.file ∙ v.same in
    record {
      distinct = subst Distinct (sym back) v.distinct;
      filed = subst Filed (sym back) v.filed;
      same = ap on_file (file-load now s.file) ∙ v.same ∙ sym back;
    }

module _ (keccak256 : Text → Text) where
  pub step-Synced : (s : InstructionStore) (o : Op) → Synced s → Synced (step keccak256 s o)
  unfolding step
  step-Synced s (adds now i) v = add-Synced keccak256 s now i v
  step-Synced s (records now hash xrpl_tx) v = record_orphan-Synced s now hash xrpl_tx v
  step-Synced s (takes hash) v = take_orphan-Synced s hash v
  step-Synced s (completes hash c x) v = mark_completed-Synced s hash c x v
  step-Synced s (restarts now) v = load-Synced now s v

  pub run-Synced : (s : InstructionStore) (os : List Op) → Synced s → Synced (run keccak256 s os)
  unfolding run
  run-Synced s [] v = v
  run-Synced s (o ∷ os) v = run-Synced (step keccak256 s o) os (step-Synced s o v)

  pub new-Synced : (now : ℕ) → Synced (load now none)
  unfolding load
  new-Synced now = record { distinct = tt; filed = tt; same = refl }

  -- Restart.
  pub load-run :
      (now later : ℕ) (os : List Op)
      → (load later (run keccak256 (load now none) os).file).by_hash
        ≡ (run keccak256 (load now none) os).by_hash
  load-run now later os =
      let s = run keccak256 (load now none) os in
      by_hash-load later s.file ∙ (run-Synced (load now none) os (new-Synced now)).same
