-- ===== src/Store.antt =====
-- apps/operator/src/store.ts: the instructions handed over in advance, the payments that came before
-- their instruction, and the file that both are kept in. The clock is an argument of each call. The
-- file holds the values that `JSON.stringify` writes; `none` is no file, or one that cannot be read.
pub mod Checks
pub mod Sorting
pub mod Orphans
pub mod Distinct
pub mod Pruned
pub mod Handover
pub mod Invariant
pub mod Restart
pub mod Spec
mod Tests
use giroledger.Base.{
  ℕ, suc, ◌+◌, ◌-◌, ◌*◌, Bool, true, false, not, Option, none, some, List, [], ◌∷◌, ltb, leb, ◌==◌,
  if◌then◌else◌, length, take, drop, keep,
}
use giroledger.Base.Text.{Text, codes, lower, starts_with, ends_with, text_eq}
use giroledger.Base.Dict.{Dict, get, has, set, delete, values}
use giroledger.Base.Result.{Result, ok, err, ◌>>=◌, ◌>>◌, throw_if}

pub record PendingInstruction : Type 0 where
  pub user_op_hash : Text
  pub payload : Text
  pub total_call_value : Text
  pub memo_data : Text
  pub added_at : ℕ
  pub completed_tx : Option Text
  pub xrpl_tx : Option Text

pub record OrphanPayment : Type 0 where
  pub user_op_hash : Text
  pub xrpl_tx : Text
  pub seen_at : ℕ

abbrev pub orphan_ttl_ms : ℕ
orphan_ttl_ms = 60 * 60 * 1000

abbrev pub orphan_max : ℕ
orphan_max = 500

-- `orphans` may be missing from an older file.
pub record FileShape : Type 0 where
  pub instructions : List PendingInstruction
  pub orphans : Option (List OrphanPayment)

pub record InstructionStore : Type 0 where
  pub by_hash : Dict PendingInstruction
  pub orphans : Dict OrphanPayment
  pub file : Option FileShape

pub data Error : Type 0 where
  hash_mismatch memo_length memo_opcode memo_commitment : Error

pub record Input : Type 0 where
  pub payload : Text
  pub memo_data : Text
  pub user_op_hash : Text
  pub total_call_value : Text

abbrev pub Entry : Type 0
Entry = Text × OrphanPayment

-- `sort` by `seenAt`, which keeps the order of equals.
abbrev pub insert_by_seen : Entry → List Entry → List Entry
insert_by_seen e [] = e ∷ []
insert_by_seen e (f ∷ m) = if ltb f.1.seen_at e.1.seen_at then f ∷ insert_by_seen e m else e ∷ f ∷ m

abbrev pub sort_by_seen : List Entry → List Entry
sort_by_seen [] = []
sort_by_seen (e ∷ m) = insert_by_seen e (sort_by_seen m)

abbrev pub delete_keys : List Entry → Dict OrphanPayment → Dict OrphanPayment
delete_keys [] m = m
delete_keys ((k, _) ∷ ks) m = delete_keys ks (delete k m)

-- The entries that the age limit leaves; the cut-off is an hour before now.
abbrev pub unexpired : ℕ → Dict OrphanPayment → Dict OrphanPayment
unexpired now m = keep (λ e. not (ltb e.1.seen_at (now - orphan_ttl_ms))) m

-- `pruneOrphans`.
unfoldable pub prune_orphans : ℕ → Dict OrphanPayment → Dict OrphanPayment
prune_orphans now m =
    let fresh = unexpired now m in
    if leb (length fresh) orphan_max
    then fresh
    else delete_keys (take (length fresh - orphan_max) (sort_by_seen fresh)) fresh

abbrev pub image : InstructionStore → FileShape
image s = record { instructions = values s.by_hash; orphans = some (values s.orphans) }

abbrev pub persist : InstructionStore → InstructionStore
persist s = record s { file = some (image s) }

abbrev pub load_instructions :
    List PendingInstruction → Dict PendingInstruction → Dict PendingInstruction
load_instructions [] m = m
load_instructions (i ∷ is) m = load_instructions is (set (lower i.user_op_hash) i m)

abbrev pub load_orphans : List OrphanPayment → Dict OrphanPayment → Dict OrphanPayment
load_orphans [] m = m
load_orphans (o ∷ os) m = load_orphans os (set (lower o.user_op_hash) o m)

abbrev pub or_empty {ℓ} : {A : Type ℓ} → Option (List A) → List A
or_empty none = []
or_empty (some xs) = xs

-- The constructor, by `load`.
unfoldable pub load : ℕ → Option FileShape → InstructionStore
load now none = record { by_hash = []; orphans = []; file = none }
load now (some f) = record {
  by_hash = load_instructions f.instructions [];
  orphans = prune_orphans now (load_orphans (or_empty f.orphans) []);
  file = some f;
}

unfoldable pub find : InstructionStore → Text → Option PendingInstruction
find s hash = get (lower hash) s.by_hash

unfoldable pub record_orphan : InstructionStore → ℕ → Text → Text → InstructionStore
record_orphan s now hash xrpl_tx =
    if has (lower hash) s.orphans
    then s
    else persist (record s {
      orphans = prune_orphans now (
          set (lower hash) (record { user_op_hash = hash; xrpl_tx = xrpl_tx; seen_at = now })
            s.orphans);
    })

unfoldable pub take_orphan : InstructionStore → Text → Option OrphanPayment × InstructionStore
take_orphan s hash = elim (get (lower hash) s.orphans) [
  | none ↦ (none, s)
  | some o ↦ (some o, persist (record s { orphans = delete (lower hash) s.orphans }))
]

unfoldable pub mark_completed : InstructionStore → Text → Text → Text → InstructionStore
mark_completed s hash completed_tx xrpl_tx = elim (get (lower hash) s.by_hash) [
  | none ↦ s
  | some i ↦ persist (record s {
    by_hash =
        set (lower hash) (record i { completed_tx = some completed_tx; xrpl_tx = some xrpl_tx })
          s.by_hash;
  })
]

abbrev pub get_or {ℓ} : {A : Type ℓ} → A → Option A → A
get_or d none = d
get_or d (some a) = a

abbrev pub is_none {ℓ} : {A : Type ℓ} → Option A → Bool
is_none none = true
is_none (some a) = false

unfoldable pub pending : InstructionStore → List PendingInstruction
pending s = keep (λ i. is_none i.completed_tx) (values s.by_hash)

unfoldable pub size : InstructionStore → ℕ
size s = length s.by_hash

unfoldable pub orphan_count : InstructionStore → ℕ
orphan_count s = length s.orphans

module _ (keccak256 : Text → Text) where
  -- The checks of `add`, before it looks at what it holds.
  unfoldable pub check_input : Input → Result Error (Unit {0})
  check_input i = do
    let computed = keccak256 i.payload
    throw_if (not (text_eq (lower computed) (lower i.user_op_hash))) hash_mismatch
    let memo = lower i.memo_data
    throw_if (not (length memo == 86)) memo_length
    throw_if (not (starts_with memo (codes "0xfe"))) memo_opcode
    throw_if (not (ends_with memo (lower (drop 2 computed)))) memo_commitment
    ok tt

  abbrev pub new_record : ℕ → Input → PendingInstruction
  new_record now i = record {
    user_op_hash = keccak256 i.payload;
    payload = i.payload;
    total_call_value = i.total_call_value;
    memo_data = i.memo_data;
    added_at = now;
    completed_tx = none;
    xrpl_tx = none;
  }

  unfoldable pub add :
      InstructionStore → ℕ → Input → Result Error (PendingInstruction × InstructionStore)
  add s now i = do
    check_input i
    let key = lower (keccak256 i.payload)
    elim (get key s.by_hash) [
      | some existing ↦ ok (existing, s)
      | none ↦
          ok (
            new_record now i,
            persist (record s { by_hash = set key (new_record now i) s.by_hash }),
          )
    ]
