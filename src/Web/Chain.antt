-- ===== src/Web/Chain.antt =====
-- The reads of apps/web/src/lib/flare.ts: names to contracts, accounts, vaults, the token, the fees, the
-- rules of an account, and the hand-over of an instruction. What the node and the operator answer is
-- the parameter `Node`; every read may throw.
pub mod Vaults
use giroledger.Base.{
  ℕ, suc, ◌&&◌, Bool, true, false, not, Option, none, some, List, [], ◌∷◌, ◌++◌, any, ◌==◌,
  if◌then◌else◌,
}
use giroledger.Base.Text.{Text, codes, lower, text_eq, ends_with}
use giroledger.Base.Dict.{Dict, get, set}
use giroledger.Base.Result.{Result, ok, err, ◌>>=◌}
use giroledger.Rules.{Rule}
use giroledger.Flow.{MintingFees}
use giroledger.Memo.{HashInstructionMemo}
use giroledger.Web.Numbers.{decimal}

-- A vault as `getVaults` of the controller lists it, and as the page shows it.
pub record Listed : Type 0 where
  pub id : ℕ
  pub address : Text
  pub kind : ℕ

pub record VaultInfo : Type 0 where
  pub id : ℕ
  pub address : Text
  pub allowed : Option Bool
  pub kind : ℕ

pub record Fxrp : Type 0 where
  pub address : Text
  pub decimals : ℕ
  pub symbol : Text

pub record Resolved : Type 0 where
  pub account : Text
  pub deployed : Bool
  pub nonce : ℕ

-- The body that is posted to the operator.
pub record Posted : Type 0 where
  pub payload : Text
  pub memo_data : Text
  pub user_op_hash : Text
  pub total_call_value : Text

pub record Node : Type 0 where
  pub contract_address_by_name : Text → Result Text Text
  pub personal_account : (controller xrpl_address : Text) → Result Text Text
  pub code : Text → Result Text (Option Text)
  pub nonce : (controller account : Text) → Result Text ℕ
  pub listed_vaults : (controller : Text) → Result Text (List Listed)
  pub vault_allowed : (registry address : Text) → Result Text Bool
  pub f_asset : (manager : Text) → Result Text Text
  pub decimals : (token : Text) → Result Text ℕ
  pub symbol : (token : Text) → Result Text Text
  pub payment_address : (manager : Text) → Result Text Text
  pub executor_fee : (manager : Text) → Result Text ℕ
  pub fee_bips : (manager : Text) → Result Text ℕ
  pub minimum_fee : (manager : Text) → Result Text ℕ
  pub balance_of : (token holder : Text) → Result Text ℕ
  pub rules_of : (registry account : Text) → Result Text (List Text)
  pub get_rule : (registry id : Text) → Result Text Rule
  pub post : (url : Text) → Posted → Result Text Bool

-- `contractByName`, with its cache: an empty text counts as no hit.
unfoldable pub cached : Node → Dict Text → Text → Result Text (Text × Dict Text)
cached node cache name = elim (get name cache) [
  | some (c ∷ t) ↦ ok (c ∷ t, cache)
  | _ ↦ do address ← node.contract_address_by_name name; ok (address, set name address cache)
]

-- `base.replace(/\/$/, "")`.
abbrev pub without_slash : Text → Text
without_slash [] = []
without_slash (c ∷ t) =
    let rest = without_slash t in if c == b'/' && text_eq t [] then [] else c ∷ rest

-- `findIndex` of the first vault that is allowed.
abbrev pub first_allowed : List VaultInfo → Option ℕ
first_allowed [] = none
first_allowed (v ∷ vs) = elim v.allowed [
  | some true ↦ some 0
  | _ ↦ (elim (first_allowed vs) [ none ↦ none | some n ↦ some (suc n) ])
]

module _ (node : Node) where
  -- `resolvePersonalAccount`.
  unfoldable pub resolve_personal_account : Text → Result Text Resolved
  resolve_personal_account xrpl_address = do
    mac ← node.contract_address_by_name (codes "MasterAccountController")
    account ← node.personal_account mac xrpl_address
    code ← node.code account
    nonce ← node.nonce mac account
    ok (record {
      account = account;
      deployed = elim code [ none ↦ false | some c ↦ not (text_eq c (codes "0x")) ];
      nonce = nonce;
    })

  -- The allowlist's answer for one vault: `none` where there is no registry or the read failed.
  unfoldable pub check_allowed : Option Text → Text → Option Bool
  check_allowed none address = none
  check_allowed (some registry) address = elim (node.vault_allowed registry address) [
    | ok b ↦ some b
    | err e ↦ none
  ]

  abbrev pub mark_allowed : Option Text → List Listed → List VaultInfo
  mark_allowed registry [] = []
  mark_allowed registry (v ∷ vs) =
      record {
        id = v.id;
        address = v.address;
        allowed = check_allowed registry v.address;
        kind = v.kind;
      }
      ∷ mark_allowed registry vs

  -- The configured vault goes first, where it is not listed already.
  unfoldable pub merge_configured : Option Text → List Listed → List Listed
  merge_configured none listed = listed
  merge_configured (some []) listed = listed
  merge_configured (some (c ∷ t)) listed =
      if any (λ v. text_eq (lower v.address) (lower (c ∷ t))) listed
      then listed
      else record { id = 0; address = c ∷ t; kind = 0 } ∷ listed

  -- `getVaults`, with the addresses of the registry and of the vault from the environment.
  unfoldable pub get_vaults : (registry configured : Option Text) → Result Text (List VaultInfo)
  get_vaults registry configured = do
    mac ← node.contract_address_by_name (codes "MasterAccountController")
    listed ← node.listed_vaults mac
    ok (mark_allowed registry (merge_configured configured listed))

  -- `getFxrp`.
  unfoldable pub get_fxrp : Result Text Fxrp
  get_fxrp = do
    manager ← node.contract_address_by_name (codes "AssetManagerFXRP")
    address ← node.f_asset manager
    decimals ← node.decimals address
    symbol ← node.symbol address
    ok (record { address = address; decimals = decimals; symbol = symbol })

  -- `getMintingFees`.
  unfoldable pub get_minting_fees : Result Text MintingFees
  get_minting_fees = do
    manager ← node.contract_address_by_name (codes "AssetManagerFXRP")
    destination ← node.payment_address manager
    executor_fee ← node.executor_fee manager
    bips ← node.fee_bips manager
    minimum ← node.minimum_fee manager
    ok (record {
      destination = destination;
      executor_fee_uba = executor_fee;
      fee_bips = bips;
      minimum_fee_uba = minimum;
    })

  -- Each rule is read by its id, which it keeps.
  unfoldable pub read_all : Text → List Text → Result Text (List Rule)
  read_all registry [] = ok []
  read_all registry (id ∷ ids) = do
    r ← node.get_rule registry id
    rs ← read_all registry ids
    ok (record r { rule_id = id } ∷ rs)

  -- `getRulesFor`.
  unfoldable pub get_rules_for : Option Text → Text → Result Text (List Rule)
  unfolding read_all
  get_rules_for none account = ok []
  get_rules_for (some registry) account = do
    ids ← node.rules_of registry account
    read_all registry ids

  -- `registerInstruction`: no operator, an answer that is not ok and a failed request are all false.
  unfoldable pub register_instruction : Option Text → HashInstructionMemo → Bool
  register_instruction none i = false
  register_instruction (some []) i = false
  register_instruction (some (c ∷ t)) i =
      let url = without_slash (c ∷ t) ++ codes "/instructions" in
      elim (node.post url (record {
        payload = i.payload;
        memo_data = i.memo_data;
        user_op_hash = i.user_op_hash;
        total_call_value = decimal i.total_call_value;
      })) [ ok accepted ↦ accepted | err e ↦ false ]
