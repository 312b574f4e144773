-- ===== src/Web/Tests/Shown.antt =====
-- A visit of the page: what is read, what rule the input makes and which payment is shown.
use giroledger.Base.{
  none, ◌<◌, ◌^◌, get_elem?, ℕ, ◌≡◌, ◌⊎◌, ◌↔◌, refl, true, false, some, [], ◌∷◌, ◌++◌,
}
use giroledger.Base.Int.{pos}
use giroledger.Base.Text.{Text, codes}
use giroledger.Base.Dict.{get}
use giroledger.Base.Result.{ok, err}
use giroledger.Rules.{CreateRuleParams, time}
use giroledger.Registry.{Registry, create_rule, new_rule}
use giroledger.Memo.{
  Viem, encode_packed_user_op, encode_hash_instruction_memo, build_create_rule_calls,
  build_create_rule_instruction, build_cancel_rule_calls, build_cancel_rule_instruction,
  to_xrpl_hex, join,
}
use giroledger.Commitment.{sum_active_commitment}
use giroledger.Commitment.Coverage.{Decodes}
use giroledger.Commitment.Calldata.{to_calldata, from_calldata, read_back}
use giroledger.Flow.{quote_for, compute_direct_minting_payment_uba}
use giroledger.Web.Numbers.{number, big_int, quotient, bits}
use giroledger.Web.Format.{to_units, looks_like_xrpl_address}
use giroledger.Web.History.{get_executions, ranges, read_windows, sort_by_block, insert_by_block}
use giroledger.Web.Chain.{
  Resolved, Fxrp, get_vaults, merge_configured, check_allowed, get_fxrp, get_minting_fees,
  resolve_personal_account, get_rules_for,
}
use giroledger.Web.Page.{rendered, Env, Page, opened, mounted, resolve, toggle_stop}
use giroledger.Web.Page.View.{
  ok_or_none, Shown, Step3, params, run_count, instruction, cancel_instruction, create_quote,
  cancel_quote, step3, stop_panel,
}
use giroledger.Web.Page.Params.{params-create_rule}
use giroledger.Web.Page.Contracts.{Configured, known}
use giroledger.Web.Page.Payment.{Creates, step3-Creates}
use giroledger.Web.Page.Stops.{Stops, stop_panel-Stops}
use giroledger.Web.Page.Stale.{rendered-instruction}
use giroledger.Web.Page.Resolve.{IsAbout, IsFailed, resolve-IsAbout}
use giroledger.Web.Tests.Reads.{node, logs}

opened_parts : Unit {0}
unfolding mounted resolve params run_count instruction cancel_instruction create_quote cancel_quote
    step3 stop_panel quotient bits number big_int to_units looks_like_xrpl_address get_executions
    ranges read_windows sort_by_block insert_by_block get_vaults merge_configured check_allowed
    get_fxrp get_minting_fees resolve_personal_account get_rules_for quote_for
    compute_direct_minting_payment_uba encode_packed_user_op encode_hash_instruction_memo
    build_create_rule_calls build_create_rule_instruction build_cancel_rule_calls
    build_cancel_rule_instruction to_xrpl_hex sum_active_commitment
opened_parts = tt

abbrev env : Env
env = record {
  registry = some (codes "0xr");
  executor = some (codes "0xe");
  vault = some (codes "0xv");
}

abbrev toy_viem : Viem
toy_viem = record {
  encode_function_data = to_calldata;
  encode_user_op = λ op. ok (codes "0x0b");
  keccak256 = λ t. codes "0x77";
  to_hex = λ n size. ok (codes "0x00");
  concat_hex = λ ts. join ts;
}

abbrev loaded : Page
unfolding opened_parts
loaded = mounted env node logs (record opened { xrpl = codes "rPT1Sjq2YGrBMTttX4GZHjKu9dyfzbpAYe" })

abbrev resolved : Page
unfolding opened_parts
resolved = resolve env node logs loaded

resolve-IsAbout_example :
    ((r : Resolved) × IsAbout env node logs loaded resolved r)
    ⊎ IsFailed env node logs loaded resolved
unfolding opened_parts
resolve-IsAbout_example = resolve-IsAbout env node logs loaded refl

about_the_account :
    resolved.resolved ≡ some (record { account = codes "0xacc"; deployed = false; nonce = 4 })
unfolding opened_parts
about_the_account = refl

-- Ten times ten tokens of six decimals.
abbrev ten_times : CreateRuleParams
ten_times = record {
  vault = codes "0xv";
  amount_per_run = 10_000_000;
  total_spend_cap = 100_000_000;
  interval_secs = 86_400;
  max_runs = 10;
  trigger = time;
  start_at = 0;
  threshold_price = pos 0;
}

typed_in : params resolved ≡ ok (some ten_times)
unfolding opened_parts
typed_in = refl

abbrev registry : Registry
registry = record {
  rules = [];
  nonces = [];
  rules_of = [];
  vault_allowed = λ v. true;
  all_rule_ids = [];
  executor = codes "0xe";
}

abbrev id_of : Text → ℕ → Text
id_of sender nonce = sender ++ nonce ∷ []

params-create_rule_example :
    ((id : Text) × (t : Registry) × (create_rule id_of registry 50 (codes "0xacc") ten_times
        ≡ ok (id, t))
      × (get id t.rules ≡ some (new_rule id 50 (codes "0xacc") ten_times)))
    ↔ ((ten_times.max_runs < 65_536) × (ten_times.total_spend_cap < 2 ^ 128))
unfolding opened_parts
params-create_rule_example =
    params-create_rule id_of registry 50 (codes "0xacc") resolved ten_times typed_in refl refl

abbrev odd_runs : Page
unfolding opened_parts
odd_runs = record resolved { runs = codes "2.5" }

-- Two and a half runs: rendering throws.
odd_runs_throw : params odd_runs ≡ err (codes "RangeError")
unfolding opened_parts
odd_runs_throw = refl

abbrev endless_runs : Page
unfolding opened_parts
endless_runs = record resolved { runs = codes "1e309" }

-- More runs than a double holds: rendering throws.
endless_runs_throw : params endless_runs ≡ err (codes "RangeError")
unfolding opened_parts
endless_runs_throw = refl

-- The account holds two tokens, so 98 are minted: with a quarter percent and the executor's fee.
abbrev to_pay : Shown
to_pay = record {
  destination = codes "rVault";
  amount_drops = 98_345_000;
  memo_hex = codes "FE0X000X000X77";
}

payment_shown : step3 env toy_viem resolved ≡ ok (Step3.payment to_pay)
unfolding opened_parts
payment_shown = refl

abbrev token : Fxrp
token = record { address = codes "0xf"; decimals = 6; symbol = codes "FTestXRP" }

loaded-Configured : Configured env resolved token (codes "0xr") (codes "0xe")
unfolding opened_parts
loaded-Configured = record { token_read = refl; has_registry = refl; has_executor = refl }

toy_viem-Decodes : Decodes toy_viem from_calldata (known token (codes "0xr") (codes "0xe"))
toy_viem-Decodes = record { encoded = read_back; apart = refl }

step3-Creates_example :
    Creates toy_viem from_calldata (known token (codes "0xr") (codes "0xe")) resolved to_pay
step3-Creates_example =
    step3-Creates env toy_viem from_calldata resolved token (codes "0xr") (codes "0xe") to_pay
      loaded-Configured toy_viem-Decodes payment_shown

abbrev stopping : Page
unfolding opened_parts
stopping = toggle_stop resolved (codes "0x1")

abbrev to_stop : Shown
to_stop = record {
  destination = codes "rVault";
  amount_drops = 200_000;
  memo_hex = codes "FE0X000X000X77";
}

stop_shown : stop_panel env toy_viem stopping ≡ some to_stop
unfolding opened_parts
stop_shown = refl

stopping-Configured : Configured env stopping token (codes "0xr") (codes "0xe")
unfolding opened_parts
stopping-Configured = record { token_read = refl; has_registry = refl; has_executor = refl }

stop_panel-Stops_example :
    Stops toy_viem from_calldata (known token (codes "0xr") (codes "0xe")) stopping to_stop
stop_panel-Stops_example =
    stop_panel-Stops env toy_viem from_calldata stopping token (codes "0xr") (codes "0xe") to_stop
      stopping-Configured toy_viem-Decodes stop_shown

rendered-instruction_example :
    (q : Page) × (get_elem? (rendered env node logs loaded) 2 ≡ some q)
    × (q.resolved ≡ some (record { account = codes "0xacc"; deployed = false; nonce = 4 }))
    × (q.rules ≡ [])
    × (instruction env toy_viem q (some ten_times)
        ≡ ok_or_none (
            build_create_rule_instruction toy_viem ten_times
              (record {
                fxrp = codes "0xf";
                rule_registry = codes "0xr";
                rule_executor = codes "0xe";
              })
              (codes "0xacc")
              4
              (some (pos (sum_active_commitment [] none)))))
unfolding opened_parts
rendered-instruction_example =
    rendered-instruction env node logs toy_viem loaded
      (record { account = codes "0xacc"; deployed = false; nonce = 4 }) (some 2_000_000)
      (record { address = codes "0xf"; decimals = 6; symbol = codes "FTestXRP" }) (codes "0xr")
      (codes "0xe") ten_times refl refl refl refl refl refl
