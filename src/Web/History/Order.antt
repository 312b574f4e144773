-- ===== src/Web/History/Order.antt =====
-- The sort of `getExecutions`: its order, and that it keeps the executions of each block as they are.
use giroledger.Base.{
  ℕ, ◌≤◌, ◌≡◌, refl, List, [], ◌∷◌, arith, All, keep, ltb, ◌==◌, map, Bool-cases, inl, inr,
}
use giroledger.Web.History.{Log, Execution, to_execution, insert_by_block, sort_by_block}

-- Every execution stands before those of its own and of earlier blocks.
abbrev pub Descending : List Execution → Type 0
Descending [] = Unit
Descending (e ∷ es) = All (λ d. d.block_number ≤ e.block_number) es × Descending es

-- The executions of one block, in their order.
abbrev pub at_block : ℕ → List Execution → List Execution
at_block b es = keep (λ e. e.block_number == b) es

abbrev pub logs_at : ℕ → List Log → List Log
logs_at b ls = keep (λ l. l.block_number == b) ls

All-insert :
    (n : ℕ) (e : Execution) (ds : List Execution)
    → e.block_number ≤ n
    → All (λ d. d.block_number ≤ n) ds
    → All (λ d. d.block_number ≤ n) (insert_by_block e ds)
unfolding insert_by_block
All-insert n e [] h a = (h, tt)
All-insert n e (d ∷ ds) h a = ground (arith, All-insert n e ds)

All-weaken :
    (m n : ℕ) (ds : List Execution)
    → m ≤ n
    → All (λ d. d.block_number ≤ m) ds
    → All (λ d. d.block_number ≤ n) ds
All-weaken m n [] h a = tt
All-weaken m n (d ∷ ds) h a = (omega arith, All-weaken m n ds h a.1)

insert_by_block-Descending :
    (e : Execution) (ds : List Execution) → Descending ds → Descending (insert_by_block e ds)
unfolding insert_by_block
insert_by_block-Descending e [] v = (tt, tt)
insert_by_block-Descending e (d ∷ ds) v = elim (Bool-cases (ltb e.block_number d.block_number)) [
  | inl later ↦
      rw later
        (All-insert d.block_number e ds (ground arith) v.0, insert_by_block-Descending e ds v.1)
  | inr first ↦
      let le : d.block_number ≤ e.block_number = ground arith in
      rw first ((le, All-weaken d.block_number e.block_number ds le v.0), v)
]

pub sort_by_block-Descending : (es : List Execution) → Descending (sort_by_block es)
unfolding sort_by_block
sort_by_block-Descending [] = tt
sort_by_block-Descending (e ∷ es) =
    insert_by_block-Descending e (sort_by_block es) (sort_by_block-Descending es)

at_block-insert :
    (b : ℕ) (e : Execution) (ds : List Execution)
    → at_block b (insert_by_block e ds) ≡ at_block b (e ∷ ds)
unfolding insert_by_block
at_block-insert b e [] = refl
at_block-insert b e (d ∷ ds) = ground (arith, at_block-insert b e ds)

pub at_block-sort : (b : ℕ) (es : List Execution) → at_block b (sort_by_block es) ≡ at_block b es
unfolding sort_by_block
at_block-sort b [] = refl
at_block-sort b (e ∷ es) =
    rw (at_block-insert b e (sort_by_block es)) (ground (arith, at_block-sort b es))

pub at_block-map :
    (b : ℕ) (ls : List Log) → at_block b (map to_execution ls) ≡ map to_execution (logs_at b ls)
at_block-map b [] = refl
at_block-map b (l ∷ ls) = ground (arith, at_block-map b ls)
