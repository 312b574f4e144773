-- ===== src/Memo.antt =====
-- packages/shared/src/smartAccount.ts and memo.ts: the calls of an instruction, the 42-byte memo that
-- commits to them, and the memo's way over the XRP Ledger (with the readers of it in
-- apps/operator/src/store.ts and handlePayment.ts). The encoders and the hash of viem are the
-- parameter `Viem`, with their documented behaviour in `ViemLaws`.
pub mod Layout
pub mod Transport
mod Tests
use giroledger.Base.{
  ℕ, zero, suc, ◌+◌, ◌*◌, ◌^◌, ◌<◌, ◌≡◌, Bool, true, false, not, Option, none, some, List, [], ◌∷◌,
  ◌++◌, map, ◌==◌, ◌&&◌, ◌||◌, leb, if◌then◌else◌, length, take, drop, All,
}
use giroledger.Base.Int.{ℤ, pos, is_negative, magnitude}
use giroledger.Base.Text.{Text, codes, lower, upper, starts_with, text_eq, hex_mark}
use giroledger.Base.Result.{Result, ok, err, ◌>>=◌, ◌>>◌, throw_if}
use giroledger.Rules.{CreateRuleParams}

pub record Call : Type 0 where
  pub target : Text
  pub value : ℕ
  pub payload : Text

pub record ContractSet : Type 0 where
  pub fxrp : Text
  pub rule_registry : Text
  pub rule_executor : Text

-- The calls that are encoded: the ABI, the function's name and its arguments.
pub data FunctionCall : Type 0 where
  approve : (spender : Text) → (amount : ℕ) → FunctionCall
  create_rule : CreateRuleParams → FunctionCall
  cancel_rule : (rule_id : Text) → FunctionCall
  execute_user_op : List Call → FunctionCall

pub record PackedUserOp : Type 0 where
  pub sender : Text
  pub nonce : ℕ
  pub init_code : Text
  pub call_data : Text
  pub account_gas_limits : Text
  pub pre_verification_gas : ℕ
  pub gas_fees : Text
  pub paymaster_and_data : Text
  pub signature : Text

pub data Error : Type 0 where
  other_commitment_negative remaining_commitment_negative : Error
  integer_out_of_range memo_length memo_opcode : Error

pub record Viem : Type 0 where
  pub encode_function_data : FunctionCall → Result Error Text
  pub encode_user_op : PackedUserOp → Result Error Text
  pub keccak256 : Text → Text
  pub to_hex : ℕ → ℕ → Result Error Text
  pub concat_hex : List Text → Text

abbrev pub join : List Text → Text
join [] = []
join (t ∷ ts) = t ++ join ts

-- A hex digit as viem prints it.
abbrev pub IsLowerHex : ℕ → Type 0
IsLowerHex c = (leb b'0' c && leb c b'9') || (leb b'a' c && leb c b'f') ≡ true

-- `0x` and the digits of so many bytes.
abbrev pub IsBytes : ℕ → Text → Type 0
IsBytes n t = (body : Text) × (t ≡ hex_mark ++ body) × (length body ≡ 2 * n) × All IsLowerHex body

-- `keccak256` gives 32 bytes, `toHex` with a size pads to it where the number fits, and `concatHex`
-- drops the inner prefixes.
pub record ViemLaws (v : Viem) : Type 0 where
  pub keccak256_form : (t : Text) → IsBytes 32 (v.keccak256 t)
  pub to_hex_form :
      (n size : ℕ) → n < 256 ^ size → (t : Text) × (v.to_hex n size ≡ ok t) × IsBytes size t
  pub concat_hex_form :
      (bodies : List Text) → v.concat_hex (map (◌++◌ hex_mark) bodies) ≡ hex_mark ++ join bodies

abbrev pub get_or {ℓ} : {A : Type ℓ} → A → Option A → A
get_or d none = d
get_or d (some a) = a

abbrev pub zeros : ℕ → Text
zeros = elim [ zero ↦ [] | suc (n → ih) ↦ b'0' ∷ ih ]

-- `ZERO_BYTES32`.
abbrev pub zero_bytes32 : Text
zero_bytes32 = hex_mark ++ zeros 64

pub record HashInstructionMemo : Type 0 where
  pub memo_data : Text
  pub payload : Text
  pub user_op_hash : Text
  pub total_call_value : ℕ

-- `slice(from)` on the part behind an optional `0x`.
abbrev pub strip_mark : Text → Text
strip_mark t = if starts_with t hex_mark then drop 2 t else t

-- `memoUserOpHash` of store.ts.
unfoldable pub memo_user_op_hash : Text → Option Text
memo_user_op_hash memo =
    let body = strip_mark memo in
    if not (length body == 84)
    then none
    else (if not (text_eq (lower (take 2 body)) (codes "fe"))
        then none
        else some (lower (hex_mark ++ drop 20 body)))

-- `toXrplHex` and `fromXrplHex`.
unfoldable pub to_xrpl_hex : Text → Text
to_xrpl_hex t = upper (strip_mark t)

unfoldable pub from_xrpl_hex : Text → Text
from_xrpl_hex t = hex_mark ++ lower t

-- `payloadFitsInline`; a text of odd length has half a byte more, which 1024 does not reach.
unfoldable pub payload_fits_inline : Text → Bool
payload_fits_inline t = leb (length t) (2 * 1024 + 2)

-- `assertMemoWellFormed`: 42 bytes, that is 86 characters with the prefix, and the opcode.
unfoldable pub assert_memo_well_formed : Text → Result Error (Unit {0})
assert_memo_well_formed memo = do
  throw_if (not (length memo == 86)) memo_length
  throw_if (not (starts_with (lower memo) (codes "0xfe"))) memo_opcode
  ok tt

-- The first memo of a payment: `Memos` is no array or empty, or its first entry has its `MemoData` or
-- none that is a text.
pub record XrplTx : Type 0 where
  pub transaction_type : Text
  pub account : Option Text
  pub memos : Option (List (Option Text))

-- `extractMemo` of handlePayment.ts.
unfoldable pub extract_memo : XrplTx → Option Text
unfolding from_xrpl_hex
extract_memo tx = elim tx.memos [
  | none ↦ none
  | some [] ↦ none
  | some (none ∷ rest) ↦ none
  | some (some [] ∷ rest) ↦ none
  | some (some (c ∷ t) ∷ rest) ↦ some (from_xrpl_hex (c ∷ t))
]

-- `normaliseTxId`, and `normalizeTxId` of createRule.ts.
unfoldable pub normalise_tx_id : Text → Text
normalise_tx_id h = lower (if starts_with h hex_mark then h else hex_mark ++ h)

abbrev pub total_value : List Call → ℕ → ℕ
total_value [] acc = acc
total_value (c ∷ cs) acc = total_value cs (acc + c.value)

module _ (v : Viem) where
  -- `buildCreateRuleCalls`.
  unfoldable pub build_create_rule_calls :
      CreateRuleParams → ContractSet → ℤ → Result Error (List Call)
  build_create_rule_calls p contracts other = do
    throw_if (is_negative other) other_commitment_negative
    approval ←
        v.encode_function_data
          (approve contracts.rule_executor (p.total_spend_cap + magnitude other))
    creation ← v.encode_function_data (create_rule p)
    ok (
        record { target = contracts.fxrp; value = 0; payload = approval }
        ∷ record { target = contracts.rule_registry; value = 0; payload = creation }
        ∷ [])

  -- `buildCancelRuleCalls`.
  unfoldable pub build_cancel_rule_calls : Text → ContractSet → ℤ → Result Error (List Call)
  build_cancel_rule_calls rule_id contracts remaining = do
    throw_if (is_negative remaining) remaining_commitment_negative
    cancellation ← v.encode_function_data (cancel_rule rule_id)
    approval ← v.encode_function_data (approve contracts.rule_executor (magnitude remaining))
    ok (
        record { target = contracts.rule_registry; value = 0; payload = cancellation }
        ∷ record { target = contracts.fxrp; value = 0; payload = approval }
        ∷ [])

  -- `encodePackedUserOp`.
  unfoldable pub encode_packed_user_op : List Call → Text → ℕ → Result Error Text
  encode_packed_user_op calls sender nonce = do
    call_data ← v.encode_function_data (execute_user_op calls)
    v.encode_user_op (record {
      sender = sender;
      nonce = nonce;
      init_code = hex_mark;
      call_data = call_data;
      account_gas_limits = zero_bytes32;
      pre_verification_gas = 0;
      gas_fees = zero_bytes32;
      paymaster_and_data = hex_mark;
      signature = hex_mark;
    })

  -- `encodeHashInstructionMemo`: the opcode, the wallet id, the fee and the hash of the operation.
  unfoldable pub encode_hash_instruction_memo :
      List Call → Text → ℕ → Option ℕ → Option ℕ → Result Error HashInstructionMemo
  encode_hash_instruction_memo calls sender nonce wallet_id executor_fee = do
    payload ← encode_packed_user_op calls sender nonce
    let user_op_hash = v.keccak256 payload
    wallet ← v.to_hex (get_or 0 wallet_id) 1
    fee ← v.to_hex (get_or 0 executor_fee) 8
    ok (record {
      memo_data = v.concat_hex (codes "0xFE" ∷ wallet ∷ fee ∷ user_op_hash ∷ []);
      payload = payload;
      user_op_hash = user_op_hash;
      total_call_value = total_value calls 0;
    })

  -- `buildCreateRuleInstruction` and `buildCancelRuleInstruction`.
  unfoldable pub build_create_rule_instruction :
      CreateRuleParams
      → ContractSet
      → Text
      → ℕ
      → Option ℤ
      → Result Error (List Call × HashInstructionMemo)
  build_create_rule_instruction p contracts personal_account nonce other = do
    calls ← build_create_rule_calls p contracts (get_or (pos 0) other)
    memo ← encode_hash_instruction_memo calls personal_account nonce none none
    ok (calls, memo)

  unfoldable pub build_cancel_rule_instruction :
      Text → ContractSet → Text → ℕ → Option ℤ → Result Error (List Call × HashInstructionMemo)
  build_cancel_rule_instruction rule_id contracts personal_account nonce remaining = do
    calls ← build_cancel_rule_calls rule_id contracts (get_or (pos 0) remaining)
    memo ← encode_hash_instruction_memo calls personal_account nonce none none
    ok (calls, memo)
