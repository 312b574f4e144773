-- ===== src/Store/Checks.antt =====
-- What `add` of store.ts accepts, which error it gives otherwise, and what an accepted instruction is
-- found by.
use giroledger.Base.{
  ℕ, ◌≡◌, refl, ◌↔◌, inl, inr, true, some, arith, length, drop, Option-cases, if◌then◌else◌,
}
use giroledger.Base.Text.{
  Text, codes, lower, starts_with, ends_with, text_eq, text_eq_iff, length-lower,
}
use giroledger.Base.Dict.{get, set, get-set}
use giroledger.Base.Result.{ok, err}
use giroledger.Store.{
  PendingInstruction, InstructionStore, Input, hash_mismatch, check_input, add, find, new_record,
  persist, get_or,
}

module _ (keccak256 : Text → Text) where
  -- The memo is of 42 bytes, opens with the opcode and ends with the hash of the operation, and the
  -- claimed hash is that hash; letters of either case.
  pub record Committed (i : Input) : Type 0 where
    pub claimed : lower (keccak256 i.payload) ≡ lower i.user_op_hash
    pub forty_two_bytes : length i.memo_data ≡ 86
    pub opcode : starts_with (lower i.memo_data) (codes "0xfe") ≡ true
    pub commits : ends_with (lower i.memo_data) (lower (drop 2 (keccak256 i.payload))) ≡ true

  -- The checks of an input pass exactly when the claimed hash is the hash of the payload, the memo
  -- is of 42 bytes, opens with the opcode and ends with that hash, letters of either case.
  pub check_input-ok : (i : Input) → (check_input keccak256 i ≡ ok tt) ↔ Committed i
  unfolding check_input
  check_input-ok i = ground (
    arith,
    text_eq_iff (lower (keccak256 i.payload)) (lower i.user_op_hash),
    length-lower i.memo_data,
  )

  -- Adding an input fails with the error on the hash exactly when the claimed hash is not the hash
  -- of the payload, letters of either case.
  pub add-hash_mismatch :
      (s : InstructionStore) (now : ℕ) (i : Input)
      → (add keccak256 s now i ≡ err hash_mismatch)
        ↔ (¬ (lower (keccak256 i.payload) ≡ lower i.user_op_hash))
  unfolding add check_input
  add-hash_mismatch s now i =
      ground (arith, text_eq_iff (lower (keccak256 i.payload)) (lower i.user_op_hash))

  -- An input whose memo commits to it is accepted. The result is the instruction already found
  -- under its hash, or a new one; from then on that hash, in letters of either case, finds the
  -- result, and every other hash finds what it found before.
  pub add-accepts :
      (s : InstructionStore) (now : ℕ) (i : Input) (h : Text)
      → Committed i
      → (r : PendingInstruction) × (t : InstructionStore) × (add keccak256 s now i ≡ ok (r, t))
        × (r ≡ get_or (new_record keccak256 now i) (find s i.user_op_hash))
        × (find t h ≡ (if text_eq (lower i.user_op_hash) (lower h) then some r else find s h))
  unfolding add find
  add-accepts s now i h c =
      let key = lower (keccak256 i.payload) in
      let new = new_record keccak256 now i in
      elim (Option-cases (get key s.by_hash)) [
        | inl fresh ↦ (
          new,
          persist (record s { by_hash = set key new s.by_hash }),
          rw ((check_input-ok i).1 c, fresh) refl,
          rw (← c.claimed, fresh) refl,
          rw (← c.claimed) (get-set key (lower h) new s.by_hash),
        )
        | inr (r, held) ↦ (
          r,
          s,
          rw ((check_input-ok i).1 c, held) refl,
          rw (← c.claimed, held) refl,
          rw (← c.claimed) (ground (arith, held, text_eq_iff key (lower h))),
        )
      ]
