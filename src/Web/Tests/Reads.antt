-- ===== src/Web/Tests/Reads.antt =====
-- Texts, vaults, the history and the two state machines of the page.
use giroledger.Base.{
  ℕ, ◌+◌, ◌-◌, ◌*◌, ◌^◌, ◌<◌, ◌≡◌, refl, true, false, none, some, List, [], ◌∷◌, arith, keep, leb,
  ◌&&◌, map, All,
}
use giroledger.Base.Int.{pos, negsuc}
use giroledger.Base.Text.{codes, text_eq}
use giroledger.Base.Result.{ok, err}
use giroledger.Web.Numbers.{whole, fraction, infinite, nan, number, big_int, decimal}
use giroledger.Web.Format.{units, to_units, duration, relative_time, looks_like_xrpl_address}
use giroledger.Web.Format.Amounts.{value_from, to_units-digits}
use giroledger.Web.Chain.{Node, VaultInfo, get_vaults, check_allowed, merge_configured}
use giroledger.Web.History.{
  Log, Logs, ExecutionHistory, earliest_block, ranges, read_windows, insert_by_block, sort_by_block,
  to_execution, get_executions,
}
use giroledger.Web.History.Windows.{ranges-earliest}
use giroledger.Web.History.Order.{at_block, logs_at}
use giroledger.Web.History.Complete.{get_executions_complete}
use giroledger.Web.Register.{Request, Event, changes, answers, effect_step, effect_run, idle}
use giroledger.Web.Register.Answers.{effect_run-registered}
use giroledger.Web.Wallet
use giroledger.Web.Wallet.{
  asked_by, Props, Asked, Button, Reply, button_step, button_run, mounted, advance,
}
use giroledger.Web.Wallet.Sends.{button_run-asked}

numbers_read :
    (number (codes " 12 ") ≡ whole (pos 12))
    × (number (codes "2.50") ≡ fraction false 2)
    × (number (codes "25e-1") ≡ fraction false 2)
    × (number (codes "1.5e1") ≡ whole (pos 15))
    × (number (codes "-3") ≡ whole (negsuc 2))
    × (number (codes "0x1F") ≡ whole (pos 31))
    × (number (codes "Infinity") ≡ infinite false)
    × (number (codes "1.00000000000000001") ≡ whole (pos 1))
    × (number (codes "9007199254740993") ≡ whole (pos 9_007_199_254_740_992))
    × (number (codes "1e309") ≡ infinite false)
    × (number (codes "1e-400") ≡ whole (pos 0))
    × (number (codes "0.1") ≡ fraction false 0)
    × (number (codes "ten") ≡ nan)
unfolding number
numbers_read = (refl, refl, refl, refl, refl, refl, refl, refl, refl, refl, refl, refl, refl)

texts_shown :
    (units 1_234_567_890 6 2 ≡ codes "1,234.56")
    × (units 5_000_000 6 2 ≡ codes "5")
    × (duration 86_400 ≡ codes "1 day")
    × (duration 7_200 ≡ codes "2 hours")
    × (relative_time 1_000 100_000 ≡ codes "in 15 mins")
    × (relative_time 0 100_000_000_000 ≡ codes "1157 days ago")
    × (looks_like_xrpl_address (codes " rPT1Sjq2YGrBMTttX4GZHjKu9dyfzbpAYe ") ≡ true)
    × (looks_like_xrpl_address (codes "rl") ≡ false)
unfolding units decimal duration relative_time looks_like_xrpl_address
texts_shown = (refl, refl, refl, refl, refl, refl, refl, refl)

amounts_read :
    (to_units (codes " 1.5 ") 6 ≡ some (pos 1_500_000))
    × (to_units (codes ".25") 6 ≡ some (pos 250_000))
    × (to_units (codes "-1.5") 6 ≡ some (negsuc 499_999))
    × (to_units (codes "1,5") 6 ≡ none)
unfolding to_units big_int
amounts_read = (refl, refl, refl, refl)

to_units-digits_example :
    to_units (codes "12.5") 6
    ≡ some (pos (value_from 0 (codes "12") * 10 ^ 6 + value_from 0 (codes "5") * 10 ^ (6 - 1)))
to_units-digits_example =
    to_units-digits b'1' (codes "2") (codes "5") 6 (refl, (refl, tt)) (refl, tt) (omega arith)

-- A chain with two events, and a node that answers from it.
abbrev pub event : ℕ → Log
event n = record {
  rule_id = codes "0x1";
  account = codes "0xacc";
  vault = codes "0xv";
  amount = n;
  shares = n;
  transaction_hash = codes "0xt";
  block_number = n;
}

abbrev pub chain : List Log
chain = event 95 ∷ event 150 ∷ []

abbrev pub logs : Logs
logs = record {
  get_block_number = ok 160;
  get_logs =
      λ executor account f t. ok (keep (λ l. leb f l.block_number && leb l.block_number t) chain);
}

abbrev read_history : ExecutionHistory
read_history = record {
  executions = to_execution (event 150) ∷ to_execution (event 95) ∷ [];
  from_block = 70;
  to_block = 160;
  partial = false;
}

in_three_windows : get_executions logs (some (codes "0xe")) (codes "0xacc") 3 ≡ ok read_history
unfolding get_executions ranges read_windows sort_by_block insert_by_block
in_three_windows = refl

get_executions_complete_example :
    at_block 95 read_history.executions ≡ map to_execution (logs_at 95 chain)
get_executions_complete_example =
    get_executions_complete logs (codes "0xe") (codes "0xacc") 3 95 chain read_history
      (λ f t ls le narrow e. cc) in_three_windows refl (omega arith) (omega arith)

ranges-earliest_example :
    All (λ w. earliest_block 160 3 < w.0) (ranges 3 (earliest_block 160 3) 160)
ranges-earliest_example = ranges-earliest 160 3 (omega arith)

abbrev pub node : Node
node = record {
  contract_address_by_name = λ name. ok name;
  personal_account = λ controller xrpl. ok (codes "0xacc");
  code = λ a. ok none;
  nonce = λ controller a. ok 4;
  listed_vaults = λ controller. ok (record { id = 3; address = codes "0xOther"; kind = 1 } ∷ []);
  vault_allowed = λ registry a. ok (text_eq a (codes "0xv"));
  f_asset = λ manager. ok (codes "0xf");
  decimals = λ t. ok 6;
  symbol = λ t. ok (codes "FTestXRP");
  payment_address = λ manager. ok (codes "rVault");
  executor_fee = λ manager. ok 100_000;
  fee_bips = λ manager. ok 25;
  minimum_fee = λ manager. ok 100_000;
  balance_of = λ t a. ok 2_000_000;
  rules_of = λ registry a. ok [];
  get_rule = λ registry id. err (codes "no rule");
  post = λ url b. ok true;
}

abbrev pub shown_vaults : List VaultInfo
shown_vaults =
    record { id = 0; address = codes "0xv"; allowed = some true; kind = 0 }
    ∷ record { id = 3; address = codes "0xOther"; allowed = some false; kind = 1 }
    ∷ []

vaults_read : get_vaults node (some (codes "0xr")) (some (codes "0xv")) ≡ ok shown_vaults
unfolding get_vaults merge_configured check_allowed
vaults_read = refl

-- The first instruction's answer comes when the second is on screen.
abbrev late_answer : List (Event ℕ)
late_answer = changes (some 1) ∷ changes (some 2) ∷ answers 1 true ∷ answers 0 false ∷ []

last_shown : (effect_run {I = ℕ} idle late_answer).registered ≡ some false
unfolding effect_step
last_shown = refl

effect_run-registered_example :
    (i : ℕ) × (r : Request ℕ) × (older : List (Request ℕ)) × ((effect_run idle late_answer).active
      ≡ some i)
    × ((effect_run idle late_answer).requests ≡ r ∷ older)
    × (r.about ≡ i)
    × (r.answer ≡ some false)
effect_run-registered_example = effect_run-registered late_answer false last_shown

abbrev payment : Props
payment = record {
  destination = codes "rVault";
  amount_drops = codes "200000";
  memo_hex = codes "FE";
  disabled = false;
}

abbrev clicked : List Wallet.Event
clicked =
    Wallet.Event.clicks
    ∷ Wallet.Event.replies 0 (Reply.installed true)
    ∷ Wallet.Event.replies 0 (Reply.network_name (some (codes "Testnet")))
    ∷ []

asked_once : (button_run (mounted payment) clicked).asked ≡ asked_by payment ∷ []
unfolding button_step advance
asked_once = refl

abbrev IsPayment : Asked → Type 0
IsPayment a = a ≡ asked_by payment

button_run-asked_example : All IsPayment (button_run (mounted payment) clicked).asked
button_run-asked_example = button_run-asked IsPayment payment clicked (λ e. refl) tt
