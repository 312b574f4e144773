-- ===== src/Memo/Tests.antt =====
-- An encoder and a hash that keep the laws asked of viem, and the theorems on the memo at them.
use giroledger.Base.{
  ℕ, zero, suc, ◌+◌, ◌-◌, ◌*◌, ◌/◌, ◌%◌, ◌^◌, ◌≡◌, refl, ap, none, some, List, [], ◌∷◌, ◌++◌, map,
  arith, ltb, if◌then◌else◌, length, length-append, drop, All, All-append,
}
use giroledger.Base.Text.{Text, codes, hex_mark}
use giroledger.Base.Result.{ok, err}
use giroledger.Memo.{
  Viem, ViemLaws, IsLowerHex, integer_out_of_range, Call, HashInstructionMemo, join,
  encode_hash_instruction_memo, encode_packed_user_op, assert_memo_well_formed, memo_user_op_hash,
  XrplTx, extract_memo, to_xrpl_hex,
}
use giroledger.Store
use giroledger.Store.{PendingInstruction, InstructionStore, add, find, new_record}
use giroledger.Store.Handover.{input_of, add-encode_hash_instruction_memo}
use giroledger.Memo.Layout.{encode_hash_instruction_memo_lem}
use giroledger.Memo.Transport.{extract_memo-to_xrpl_hex}

abbrev digit : ℕ → ℕ
digit d = if ltb d 10 then b'0' + d else b'a' + (d - 10)

abbrev hex_digits : ℕ → ℕ → Text
hex_digits zero n = []
hex_digits (suc k) n = hex_digits k (n / 16) ++ digit (n % 16) ∷ []

digit-IsLowerHex : (n : ℕ) → IsLowerHex (digit (n % 16))
digit-IsLowerHex n = ground arith

length-hex_digits : (k n : ℕ) → length (hex_digits k n) ≡ k
length-hex_digits zero n = refl
length-hex_digits (suc k) n = omega (
  arith,
  length-append (hex_digits k (n / 16)) (digit (n % 16) ∷ []),
  length-hex_digits k (n / 16),
)

hex_digits-IsLowerHex : (k n : ℕ) → All IsLowerHex (hex_digits k n)
hex_digits-IsLowerHex zero n = tt
hex_digits-IsLowerHex (suc k) n =
    All-append IsLowerHex (hex_digits k (n / 16)) (digit (n % 16) ∷ [])
      (hex_digits-IsLowerHex k (n / 16)) (digit-IsLowerHex n, tt)

abbrev weight : Text → ℕ
weight [] = 7
weight (c ∷ t) = (c + 31 * weight t) % 1_000_003

abbrev toy_viem : Viem
toy_viem = record {
  encode_function_data = λ f. ok (codes "0xc0de");
  encode_user_op = λ op. ok (op.sender ++ op.nonce ∷ op.call_data);
  keccak256 = λ t. hex_mark ++ hex_digits 64 (weight t);
  to_hex = λ n size.
      if ltb n (256 ^ size)
      then ok (hex_mark ++ hex_digits (2 * size) n)
      else err integer_out_of_range;
  concat_hex = λ ts. hex_mark ++ join (map (drop 2) ts);
}

join_bodies : (bodies : List Text) → join (map (drop 2) (map (◌++◌ hex_mark) bodies)) ≡ join bodies
join_bodies [] = refl
join_bodies (b ∷ bs) = ap (λ t. b ++ t) (join_bodies bs)

toy_viem-ViemLaws : ViemLaws toy_viem
toy_viem-ViemLaws = record {
  keccak256_form = λ t. (
    hex_digits 64 (weight t),
    refl,
    length-hex_digits 64 (weight t),
    hex_digits-IsLowerHex 64 (weight t),
  );
  to_hex_form = λ n size h. (
    hex_mark ++ hex_digits (2 * size) n,
    ground arith,
    (
      hex_digits (2 * size) n,
      refl,
      length-hex_digits (2 * size) n,
      hex_digits-IsLowerHex (2 * size) n,
    ),
  );
  concat_hex_form = λ bodies. ap (λ t. hex_mark ++ t) (join_bodies bodies);
}

abbrev one_call : List Call
one_call = record { target = codes "0xf"; value = 3; payload = codes "0xc0de" } ∷ []

abbrev operation : Text
operation = codes "0xacc" ++ 4 ∷ codes "0xc0de"

encoded : encode_packed_user_op toy_viem one_call (codes "0xacc") 4 ≡ ok operation
unfolding encode_packed_user_op
encoded = refl

encode_hash_instruction_memo_lem_example :
    (m : HashInstructionMemo) × (encode_hash_instruction_memo toy_viem one_call
        (codes "0xacc")
        4
        (some 7)
        none
      ≡ ok m)
    × (m.payload ≡ operation)
    × (m.user_op_hash ≡ toy_viem.keccak256 operation)
    × (assert_memo_well_formed m.memo_data ≡ ok tt)
    × (memo_user_op_hash m.memo_data ≡ some (toy_viem.keccak256 operation))
encode_hash_instruction_memo_lem_example =
    encode_hash_instruction_memo_lem toy_viem toy_viem-ViemLaws one_call (codes "0xacc") 4 (some 7)
      none operation (omega arith) (omega arith) encoded

abbrev built : HashInstructionMemo
built = record {
  memo_data = toy_viem.concat_hex (
      codes "0xFE" ∷ codes "0x07" ∷ codes "0x0000000000000000" ∷ toy_viem.keccak256 operation ∷ []);
  payload = operation;
  user_op_hash = toy_viem.keccak256 operation;
  total_call_value = 3;
}

memo_built :
    encode_hash_instruction_memo toy_viem one_call (codes "0xacc") 4 (some 7) none ≡ ok built
unfolding encode_hash_instruction_memo encode_packed_user_op
memo_built = refl

abbrev empty_store : InstructionStore
empty_store = record { by_hash = []; orphans = []; file = none }

add-encode_hash_instruction_memo_example :
    (r : PendingInstruction) × (t : InstructionStore) × (hash : Text) × (add toy_viem.keccak256
        empty_store 50
        (input_of built (codes "3"))
      ≡ ok (r, t))
    × (memo_user_op_hash built.memo_data ≡ some hash)
    × (find t hash ≡ some r)
    × (r
        ≡ Store.get_or
            (new_record toy_viem.keccak256 50 (input_of built (codes "3")))
            (find empty_store hash))
add-encode_hash_instruction_memo_example =
    add-encode_hash_instruction_memo toy_viem toy_viem-ViemLaws one_call (codes "0xacc") 4 (some 7)
      none built empty_store 50 (codes "3") (omega arith) (omega arith) memo_built

abbrev payment : XrplTx
payment = record {
  transaction_type = codes "Payment";
  account = some (codes "rSender");
  memos = some (some (to_xrpl_hex (codes "0xFE00ab")) ∷ none ∷ []);
}

extract_memo-to_xrpl_hex_example : extract_memo payment ≡ some (codes "0xfe00ab")
extract_memo-to_xrpl_hex_example =
    extract_memo-to_xrpl_hex payment b'F' (codes "E00ab") (none ∷ []) refl

-- 84 digits, some of them capital.
abbrev capital_body : Text
capital_body = codes "FE07AB" ++ hex_digits 78 48879
