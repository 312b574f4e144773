-- ===== src/Store/Handover.antt =====
-- The memos of packages/shared/src/smartAccount.ts against the checks and the look-up of store.ts.
use mathlib.Core.List.{append_assoc}
use giroledger.Base.{
  ℕ, ◌+◌, ◌-◌, ◌<◌, ◌^◌, ◌≡◌, refl, ap, subst, ◌∙◌, sym, true, Option, some, List, ◌∷◌, ◌++◌, arith,
  length, drop, length-append, drop-append,
}
use giroledger.Base.Text.{Text, lower, ends_with, text_eq_refl, hex_mark, lower-append}
use giroledger.Base.Result.{ok}
use giroledger.Memo.{
  Viem, ViemLaws, Call, HashInstructionMemo, encode_hash_instruction_memo, memo_user_op_hash,
}
use giroledger.Memo.Layout.{
  Parts, length-laid_out, memo_user_op_hash-laid_out, encode_hash_instruction_memo-Parts,
}
use giroledger.Store.{PendingInstruction, InstructionStore, Input, add, find, new_record, get_or}
use giroledger.Store.Checks.{Committed, add-accepts}

ends_with-append : (s t : Text) → ends_with (s ++ t) t ≡ true
ends_with-append s t =
    let whole : length (s ++ t) ≡ length s + length t = length-append s t in
    let cut : length (s ++ t) - length t ≡ length s = omega (arith, whole) in
    rw (cut, drop-append s t, text_eq_refl t) (ground (arith, whole))

-- What is handed over for a memo that was built.
abbrev pub input_of : HashInstructionMemo → Text → Input
input_of m value = record {
  payload = m.payload;
  memo_data = m.memo_data;
  user_op_hash = m.user_op_hash;
  total_call_value = value;
}

module _ (v : Viem) (laws : ViemLaws v) (calls : List Call) (sender : Text) (nonce : ℕ) where
  -- The memo of an operation commits to it, as the operator checks it.
  Parts-Committed :
      (m : HashInstructionMemo) (value : Text)
      → Parts v laws calls sender nonce m
      → Committed v.keccak256 (input_of m value)
  Parts-Committed m value p =
      let prefix = hex_mark ++ (b'F' ∷ b'E' ∷ (p.wallet ++ p.fee)) in
      let split : m.memo_data ≡ prefix ++ p.hash =
        p.layout
        ∙ ap (λ t. hex_mark ++ (b'F' ∷ b'E' ∷ t)) (sym (append_assoc p.wallet p.fee p.hash)) in
      record {
        claimed = rw p.named refl;
        forty_two_bytes =
            ap length p.layout
            ∙ length-laid_out p.wallet p.fee p.hash p.wallet_length p.fee_length p.hash_length;
        opcode = rw p.layout refl;
        commits =
            subst (λ t. ends_with t (lower (drop 2 (v.keccak256 m.payload))) ≡ true)
              (sym (ap lower split ∙ lower-append prefix p.hash))
              (rw p.hashed (ends_with-append (lower prefix) (lower p.hash)));
      }

  -- Under the documented behaviour of the encoders and the hash: whatever operation an instruction
  -- is built of, with a wallet id of one byte and a fee of eight, the operator accepts it with the
  -- memo that was built, and finds it by the hash that it reads from that memo in an arriving
  -- payment; what it finds is the instruction that it had under that hash before, or a new one with
  -- this operation.
  pub add-encode_hash_instruction_memo :
      (wallet_id executor_fee : Option ℕ) (m : HashInstructionMemo) (s : InstructionStore) (now : ℕ)
      (value : Text)
      → get_or 0 wallet_id < 256
      → get_or 0 executor_fee < 256 ^ 8
      → encode_hash_instruction_memo v calls sender nonce wallet_id executor_fee ≡ ok m
      → (r : PendingInstruction) × (t : InstructionStore) × (hash : Text) × (add v.keccak256 s now
            (input_of m value)
          ≡ ok (r, t))
        × (memo_user_op_hash m.memo_data ≡ some hash)
        × (find t hash ≡ some r)
        × (r ≡ get_or (new_record v.keccak256 now (input_of m value)) (find s hash))
  add-encode_hash_instruction_memo wallet_id executor_fee m s now value hw hf done =
      let p =
        encode_hash_instruction_memo-Parts v laws calls sender nonce wallet_id executor_fee m hw hf
          done in
      let (r, t, added, is, found) =
        add-accepts v.keccak256 s now (input_of m value) m.user_op_hash
          (Parts-Committed m value p) in
      (
        r,
        t,
        m.user_op_hash,
        added,
        ap memo_user_op_hash p.layout
            ∙ memo_user_op_hash-laid_out p.wallet p.fee p.hash p.wallet_length p.fee_length
                p.hash_length p.hash_digits
            ∙ ap some (sym (p.named ∙ p.hashed)),
        found ∙ rw (text_eq_refl (lower m.user_op_hash)) refl,
        is,
      )
