-- ===== src/Memo/Layout.antt =====
-- The bytes of an instruction's memo: opcode, wallet id, fee, hash, and what the operator reads back.
use mathlib.Core.List.{append_assoc, append-nil}
use giroledger.Base.{
  ℕ, subst, ◌<◌, ◌^◌, ◌≡◌, refl, ◌∙◌, Option, some, List, [], ◌∷◌, ◌++◌, arith, length, drop, All,
  length-append, drop-append,
}
use giroledger.Base.Text.{Text, codes, lower, hex_mark}
use giroledger.Base.Result.{Result, ok, bind-ok}
use giroledger.Memo.{
  Viem, ViemLaws, Error, Call, HashInstructionMemo, IsLowerHex, get_or, total_value,
  encode_packed_user_op, encode_hash_instruction_memo, memo_user_op_hash, assert_memo_well_formed,
}

-- Digits as viem prints them have no upper-case letter.
lower_lowerhex : (t : Text) → All IsLowerHex t → lower t ≡ t
lower_lowerhex [] h = refl
lower_lowerhex (c ∷ t) h = ground (arith, lower_lowerhex t h.1)

abbrev fixed_part : Text → Text → Text
fixed_part wallet fee = b'F' ∷ b'E' ∷ (wallet ++ fee)

-- A memo laid out from its three parts, of 2, 16 and 64 digits.
abbrev pub laid_out : Text → Text → Text → Text
laid_out wallet fee hash = hex_mark ++ (b'F' ∷ b'E' ∷ (wallet ++ (fee ++ hash)))

module _ (wallet fee hash : Text) (w : length wallet ≡ 2) (f : length fee ≡ 16)
    (h : length hash ≡ 64) where
  pub length-laid_out : length (laid_out wallet fee hash) ≡ 86
  length-laid_out = omega (arith, length-append wallet (fee ++ hash), length-append fee hash)

  pub drop_to_hash : drop 18 (wallet ++ (fee ++ hash)) ≡ hash
  drop_to_hash =
      let cut : length (wallet ++ fee) ≡ 18 = omega (arith, length-append wallet fee) in
      rw (← append_assoc wallet fee hash, ← cut) (drop-append (wallet ++ fee) hash)

  pub memo_user_op_hash-laid_out :
      All IsLowerHex hash → memo_user_op_hash (laid_out wallet fee hash) ≡ some (hex_mark ++ hash)
  unfolding memo_user_op_hash
  memo_user_op_hash-laid_out d =
      ground (arith, length-laid_out, drop_to_hash, lower_lowerhex hash d)

  assert_memo_well_formed-laid_out : assert_memo_well_formed (laid_out wallet fee hash) ≡ ok tt
  unfolding assert_memo_well_formed
  assert_memo_well_formed-laid_out = ground (arith, length-laid_out)

module _ (v : Viem) (laws : ViemLaws v) (calls : List Call) (sender : Text) (nonce : ℕ) where
  -- Under the documented behaviour of the encoders and the hash, an operation that can be encoded,
  -- with a wallet id of one byte and a fee of eight, gives a memo that passes the check of its
  -- form, and from which the operator reads back the hash of that very operation.
  pub encode_hash_instruction_memo_lem :
      (wallet_id executor_fee : Option ℕ) (payload : Text)
      → get_or 0 wallet_id < 256
      → get_or 0 executor_fee < 256 ^ 8
      → encode_packed_user_op v calls sender nonce ≡ ok payload
      → (m : HashInstructionMemo) × (encode_hash_instruction_memo v calls sender nonce wallet_id
            executor_fee
          ≡ ok m)
        × (m.payload ≡ payload)
        × (m.user_op_hash ≡ v.keccak256 payload)
        × (assert_memo_well_formed m.memo_data ≡ ok tt)
        × (memo_user_op_hash m.memo_data ≡ some (v.keccak256 payload))
  unfolding encode_hash_instruction_memo
  encode_hash_instruction_memo_lem wallet_id executor_fee payload hw hf he =
      let (w, ew, ws) = laws.to_hex_form (get_or 0 wallet_id) 1 hw in
      let (wb, wf, wl, _) = ws in
      let (f, ef, fs) = laws.to_hex_form (get_or 0 executor_fee) 8 hf in
      let (fb, ff, fl, _) = fs in
      let (hb, hf', hl, hd) = laws.keccak256_form payload in
      let memo : v.concat_hex (codes "0xFE" ∷ w ∷ f ∷ v.keccak256 payload ∷ [])
          ≡ laid_out wb fb hb =
        rw (wf, ff, hf', laws.concat_hex_form ((b'F' ∷ b'E' ∷ []) ∷ wb ∷ fb ∷ hb ∷ []), append-nil)
          refl in
      (
        record {
          memo_data = v.concat_hex (codes "0xFE" ∷ w ∷ f ∷ v.keccak256 payload ∷ []);
          payload = payload;
          user_op_hash = v.keccak256 payload;
          total_call_value = total_value calls 0;
        },
        rw (he, ew, ef) refl,
        refl,
        refl,
        rw memo (assert_memo_well_formed-laid_out wb fb hb wl fl hl),
        rw memo (memo_user_op_hash-laid_out wb fb hb wl fl hl hd ∙ rw hf' refl),
      )

  -- The parts of the memo of an operation, and the hash that it ends with.
  pub record Parts (m : HashInstructionMemo) : Type 0 where
    pub wallet : Text
    pub fee : Text
    pub hash : Text
    pub wallet_length : length wallet ≡ 2
    pub fee_length : length fee ≡ 16
    pub hash_length : length hash ≡ 64
    pub hash_digits : All IsLowerHex hash
    pub layout : m.memo_data ≡ laid_out wallet fee hash
    pub hashed : v.keccak256 m.payload ≡ hex_mark ++ hash
    pub named : m.user_op_hash ≡ v.keccak256 m.payload

  -- Every memo that is encoded for an operation has these parts.
  pub encode_hash_instruction_memo-Parts :
      (wallet_id executor_fee : Option ℕ) (m : HashInstructionMemo)
      → get_or 0 wallet_id < 256
      → get_or 0 executor_fee < 256 ^ 8
      → encode_hash_instruction_memo v calls sender nonce wallet_id executor_fee ≡ ok m
      → Parts m
  unfolding encode_hash_instruction_memo
  encode_hash_instruction_memo-Parts wallet_id executor_fee m hw hf done =
      let (payload, he, rest) = bind-ok (encode_packed_user_op v calls sender nonce) _ m done in
      let (w, ew, (wb, wf, wl, _)) = laws.to_hex_form (get_or 0 wallet_id) 1 hw in
      let (f, ef, (fb, ff, fl, _)) = laws.to_hex_form (get_or 0 executor_fee) 8 hf in
      let (hb, hf', hl, hd) = laws.keccak256_form payload in
      let built : HashInstructionMemo = record {
        memo_data = v.concat_hex (codes "0xFE" ∷ w ∷ f ∷ v.keccak256 payload ∷ []);
        payload = payload;
        user_op_hash = v.keccak256 payload;
        total_call_value = total_value calls 0;
      } in
      let ends : ◌≡◌ {A = Result Error HashInstructionMemo} (ok built) (ok m) =
        rw (ew, ef) at rest in
      let is : built ≡ m = cc in
      let memo : built.memo_data ≡ laid_out wb fb hb =
        rw (wf, ff, hf', laws.concat_hex_form ((b'F' ∷ b'E' ∷ []) ∷ wb ∷ fb ∷ hb ∷ []), append-nil)
          refl in
      subst (λ x. Parts x) is
        (record {
          wallet = wb;
          fee = fb;
          hash = hb;
          wallet_length = wl;
          fee_length = fl;
          hash_length = hl;
          hash_digits = hd;
          layout = memo;
          hashed = hf';
          named = refl;
        })
