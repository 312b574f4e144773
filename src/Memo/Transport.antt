-- ===== src/Memo/Transport.antt =====
-- The memo's way over the XRP Ledger: upper case and no prefix on the ledger, and back.
use giroledger.Base.{
  ◌≡◌, ap, ℕ, Option, some, List, [], ◌∷◌, ◌++◌, true, arith, length-map, take-map, drop-map, take,
  drop,
}
use giroledger.Base.Text.{Text, lower, lower_code, hex_mark, starts_with, lower_idem, lower-upper}
use giroledger.Memo.{
  XrplTx, to_xrpl_hex, from_xrpl_hex, extract_memo, memo_user_op_hash, normalise_tx_id,
}

-- A text with its prefix comes back in lower case.
pub from_xrpl_hex-to_xrpl_hex :
    (body : Text) → from_xrpl_hex (to_xrpl_hex (hex_mark ++ body)) ≡ hex_mark ++ lower body
unfolding from_xrpl_hex to_xrpl_hex
from_xrpl_hex-to_xrpl_hex body = ap (λ t. hex_mark ++ t) (lower-upper body)

-- From a payment whose first memo is a non-empty hex text as it is written to the ledger, the
-- operator extracts that text in lower case, with its prefix.
pub extract_memo-to_xrpl_hex :
    (tx : XrplTx) (c : ℕ) (body : Text) (rest : List (Option Text))
    → tx.memos ≡ some (some (to_xrpl_hex (hex_mark ++ (c ∷ body))) ∷ rest)
    → extract_memo tx ≡ some (hex_mark ++ lower (c ∷ body))
unfolding extract_memo to_xrpl_hex
extract_memo-to_xrpl_hex tx c body rest h = rw h (ap some (from_xrpl_hex-to_xrpl_hex (c ∷ body)))

-- The hash that is read from a memo with its prefix is the same when the memo is put in lower case.
pub memo_user_op_hash-lower :
    (body : Text)
    → memo_user_op_hash (hex_mark ++ lower body) ≡ memo_user_op_hash (hex_mark ++ body)
unfolding memo_user_op_hash
memo_user_op_hash-lower body = ground (
  arith,
  length-map lower_code body,
  take-map lower_code 2 body,
  drop-map lower_code 20 body,
  lower_idem (take 2 body),
  lower_idem (drop 20 body),
)

lower_starts : (h : Text) → starts_with h hex_mark ≡ true → starts_with (lower h) hex_mark ≡ true
lower_starts [] e = cc
lower_starts (c ∷ []) e = ground arith
lower_starts (c ∷ d ∷ t) e = ground arith

-- A transaction id keeps its meaning with or without the prefix, and in either case.
pub normalise_tx_id_idem : (h : Text) → normalise_tx_id (normalise_tx_id h) ≡ normalise_tx_id h
unfolding normalise_tx_id
normalise_tx_id_idem h = ground (arith, lower_idem h, lower_starts h)
