-- ===== src/Store/Tests.antt =====
-- The store of the operator on a few instructions and payments.
use giroledger.Base.{
  arith, false, ℕ, zero, suc, ◌+◌, ◌*◌, ◌%◌, ◌≤◌, ◌≡◌, refl, none, some, List, [], ◌∷◌, ◌++◌,
  if◌then◌else◌,
}
use giroledger.Base.Text.{Text, codes, lower, text_eq, text_eq_iff}
use giroledger.Base.Dict.{Dict, has}
use giroledger.Base.Result.{ok}
use giroledger.Store.{
  PendingInstruction, OrphanPayment, InstructionStore, Input, load, find, add, check_input,
  new_record, get_or, prune_orphans, record_orphan,
}
use giroledger.Store.Checks.{Committed, add-accepts}
use giroledger.Base.Keys.{Distinct}
use giroledger.Store.Pruned.{IsPruned, prune_orphans-IsPruned}
use giroledger.Store.Invariant.{Inv, Op, adds, records, takes, completes, restarts, run, run-Inv}
use giroledger.Store.Spec.{spec_run, view-run}

opened : Unit {0}
unfolding load find add check_input prune_orphans record_orphan
opened = tt

-- A digest of 32 bytes that tells apart what starts with another character.
abbrev nines : ℕ → Text
nines zero = []
nines (suc n) = b'9' ∷ nines n

abbrev digest : Text → Text
digest [] = codes "0x" ++ nines 64
digest (c ∷ t) = codes "0xA" ++ ((b'0' + c % 10) ∷ nines 62)

abbrev operation : Text
operation = codes "0x5e"

abbrev offered : Input
offered = record {
  payload = operation;
  memo_data = codes "0xFE070000000000000000" ++ codes "a8" ++ nines 62;
  user_op_hash = codes "0xa8" ++ nines 62;
  total_call_value = codes "0";
}

abbrev misnamed : Input
misnamed = record offered { user_op_hash = codes "0xb8" ++ nines 62 }

offered-Committed : Committed digest offered
offered-Committed = record { claimed = refl; forty_two_bytes = refl; opcode = refl; commits = refl }

abbrev nothing_held : InstructionStore
nothing_held = record { by_hash = []; orphans = []; file = none }

add-accepts_example :
    (r : PendingInstruction) × (t : InstructionStore) × (add digest nothing_held 9 offered
      ≡ ok (r, t))
    × (r ≡ get_or (new_record digest 9 offered) (find nothing_held offered.user_op_hash))
    × (find t (codes "0xA8" ++ nines 62) ≡ (
        if text_eq (lower offered.user_op_hash) (lower (codes "0xA8" ++ nines 62))
        then some r
        else find nothing_held (codes "0xA8" ++ nines 62)))
add-accepts_example =
    add-accepts digest nothing_held 9 offered (codes "0xA8" ++ nines 62) offered-Committed

abbrev held_payment : ℕ → Text × OrphanPayment
held_payment n = (
  codes "0x" ++ n ∷ [],
  record { user_op_hash = codes "0x" ++ n ∷ []; xrpl_tx = codes "T"; seen_at = 1000 * n },
)

abbrev payments : ℕ → Dict OrphanPayment
payments zero = []
payments (suc n) = held_payment n ∷ payments n

payments-apart : (n k : ℕ) → k ≤ n → has (held_payment n).0 (payments k) ≡ false
payments-apart n zero h = refl
payments-apart n (suc k) h =
    ground (arith, payments-apart n k, text_eq_iff (held_payment k).0 (held_payment n).0)

payments-Distinct : (n : ℕ) → Distinct (payments n)
payments-Distinct zero = tt
payments-Distinct (suc n) = (payments-apart n n (omega arith), payments-Distinct n)

prune_orphans-IsPruned_example :
    IsPruned 600_000 (payments 502) (prune_orphans 600_000 (payments 502))
prune_orphans-IsPruned_example =
    prune_orphans-IsPruned 600_000 (payments 502) (payments-Distinct 502)

abbrev a_day : List Op
a_day =
    records 10 (codes "0xb8") (codes "T")
    ∷ adds 20 offered
    ∷ restarts 30
    ∷ takes (codes "0xB8")
    ∷ completes (codes "0xa8" ++ nines 62) (codes "0xt") (codes "T")
    ∷ []

run-Inv_example : Inv digest (run digest (load 5 none) a_day)
run-Inv_example = run-Inv digest 5 a_day

view-run_example :
    find (run digest (load 5 none) a_day) (codes "0xA8" ++ nines 62)
    ≡ spec_run digest (λ k. none) a_day (codes "0xA8" ++ nines 62)
view-run_example = view-run digest 5 a_day (codes "0xA8" ++ nines 62)
