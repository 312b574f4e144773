-- ===== src/Web/Page/Params.antt =====
-- The rule that the page makes of the visitor's input: when rendering throws, and what the registry and
-- the page make of the rule.
use native.Mathlib.Nat.{mul-div_cancel_left}
use giroledger.Base.{
  ℕ, zero, suc, ◌-◌, ◌*◌, ◌/◌, ◌^◌, ◌<◌, ◌≤◌, ◌≡◌, ◌⊎◌, ◌↔◌, refl, true, false, none, some, arith,
  any, ◌==◌, get_elem?, Option-cases, min, if◌then◌else◌, inl, inr,
}
use giroledger.Base.Int.{pos, negsuc}
use giroledger.Base.Text.{Text}
use giroledger.Base.Dict.{get}
use giroledger.Base.Result.{ok, bind-ok}
use giroledger.Rules.{CreateRuleParams, remaining_runs}
use giroledger.Registry.{Registry, create_rule, new_rule, fits_abi}
use giroledger.Registry.Accepts.{create_rule-Fit, create_rule-fits_abi}
use giroledger.Web.Numbers.{Number, infinite, fraction, number}
use giroledger.Web.Format.{to_units}
use giroledger.Web.Chain.{VaultInfo}
use giroledger.Web.Page.{Page, intervals, decimals_of}
use giroledger.Web.Page.View.{run_count, params_for, with_runs, params}

run_count-pos : (k : Number) (n : ℕ) → run_count k ≡ ok n → 0 < n
unfolding run_count
run_count-pos Number.nan n h = ground arith
run_count-pos (infinite true) n h = ground arith
run_count-pos (infinite false) n h = absurd (cc)
run_count-pos (Number.whole (pos m)) n h = ground arith
run_count-pos (Number.whole (negsuc m)) n h = ground arith
run_count-pos (fraction true m) n h = ground arith
run_count-pos (fraction false zero) n h = ground arith
run_count-pos (fraction false (suc m)) n h = absurd (cc)

with_runs-ok :
    (p : Page) (vault : VaultInfo) (per_run : ℕ) (w : CreateRuleParams)
    → with_runs p vault per_run ≡ ok (some w)
    → (n : ℕ) × (run_count (number p.runs) ≡ ok n) × (w ≡ params_for p vault per_run n)
with_runs-ok p vault per_run w h =
    let (n, counted, rest) = bind-ok (run_count (number p.runs)) _ (some w) h in (n, counted, cc)

-- What stands behind a rule that the page shows.
pub record Wanted (p : Page) (w : CreateRuleParams) : Type 0 where
  pub vault : VaultInfo
  pub per_run : ℕ
  pub runs : ℕ
  pub selected : get_elem? p.vaults p.vault_idx ≡ some vault
  pub read : to_units p.amount (decimals_of p) ≡ some (pos (suc per_run))
  pub counted : run_count (number p.runs) ≡ ok runs
  pub is : w ≡ params_for p vault (suc per_run) runs

pub params-Wanted : (p : Page) (w : CreateRuleParams) → params p ≡ ok (some w) → Wanted p w
unfolding params
params-Wanted p w h = elim (Option-cases (get_elem? p.vaults p.vault_idx)) [
  | inl nothing ↦ absurd (cc (rw (nothing, params) at h))
  | inr (vault, selected) ↦ elim (Option-cases (to_units p.amount (decimals_of p))) [
    | inl unread ↦ absurd (cc (rw (selected, unread, params) at h))
    | inr (negsuc n, read) ↦ absurd (cc (rw (selected, read, params) at h))
    | inr (pos zero, read) ↦ absurd (cc (rw (selected, read, params) at h))
    | inr (pos (suc n), read) ↦
        let (k, counted, is) = with_runs-ok p vault (suc n) w (rw (selected, read, params) at h) in
        record {
          vault = vault;
          per_run = n;
          runs = k;
          selected = selected;
          read = read;
          counted = counted;
          is = is;
        }
  ]
]

-- The widths of the registry's fields, for a rule that the page makes at one of its intervals.
fits_abi-params_for :
    (p : Page) (vault : VaultInfo) (per_run n : ℕ)
    → 0 < n
    → any (λ i. i == p.interval_secs) intervals ≡ true
    → n < 65_536
    → per_run * n < 2 ^ 128
    → fits_abi (params_for p vault per_run n) ≡ true
fits_abi-params_for p vault per_run n more offered few little =
    let each : per_run ≤ per_run * n = grind arith in
    let short : p.interval_secs < 2 ^ 32 = ground arith in ground arith

-- A rule that the page makes of the input, at one of the intervals it offers and for a vault that
-- the registry allows, is accepted by the registry from any sender at any time exactly when its run
-- count fits 16 bits and its cap 128 bits, and is then found there under the id that the registry
-- returns.
pub params-create_rule :
    (id_of : Text → ℕ → Text) (s : Registry) (now : ℕ) (sender : Text) (p : Page)
    (w : CreateRuleParams)
    → params p ≡ ok (some w)
    → any (λ i. i == p.interval_secs) intervals ≡ true
    → s.vault_allowed w.vault ≡ true
    → ((id : Text) × (t : Registry) × (create_rule id_of s now sender w ≡ ok (id, t))
        × (get id t.rules ≡ some (new_rule id now sender w)))
      ↔ ((w.max_runs < 65_536) × (w.total_spend_cap < 2 ^ 128))
params-create_rule id_of s now sender p w done offered allowed = (
  λ (id, t, stored, there).
      let fits = create_rule-fits_abi id_of s now sender w id t stored in ground arith,
  λ (few, little).
      let v = params-Wanted p w done in
      let more = run_count-pos (number p.runs) v.runs v.counted in
      create_rule-Fit id_of s now sender w (record {
        allowed = allowed;
        some_amount = rw v.is (omega arith);
        within = rw v.is (grind arith);
        not_short = rw v.is (ground arith);
        not_long = rw v.is (ground arith);
        on_time = rw v.is refl;
        in_widths = rw v.is (
            fits_abi-params_for p v.vault (suc v.per_run) v.runs more offered (rw v.is at few)
              (rw v.is at little));
      }),
)

steady :
    (n r : ℕ)
    → 0 < r
    → (if r == 0 then (suc n * r - 0) / suc n else min ((suc n * r - 0) / suc n) (r - 0)) ≡ r
steady n r h =
    let whole : suc n * r - 0 ≡ suc n * r = omega arith in
    rw whole (rw (mul-div_cancel_left r {n = suc n} (omega arith)) (ground arith))

-- Runs.
pub params-remaining_runs :
    (id sender : Text) (now : ℕ) (p : Page) (w : CreateRuleParams)
    → params p ≡ ok (some w)
    → remaining_runs (new_rule id now sender w) ≡ w.max_runs
unfolding remaining_runs
params-remaining_runs id sender now p w done =
    let v = params-Wanted p w done in
    rw v.is (steady v.per_run v.runs (run_count-pos (number p.runs) v.runs v.counted))

-- The counts that are no `BigInt`.
abbrev pub NotWhole : Number → Type 0
NotWhole (infinite false) = Unit
NotWhole (fraction false (suc k)) = Unit
NotWhole _ = ⊥

-- The input on which rendering throws.
abbrev pub Throws : Page → Type 0
Throws p =
    (to_units p.amount (decimals_of p) ≡ none)
    ⊎ ((n : ℕ) × (to_units p.amount (decimals_of p) ≡ some (pos (suc n)))
        × NotWhole (number p.runs))
