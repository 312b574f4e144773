-- ===== src/Rules/Params.antt =====
-- `createRuleParamsSchema` of packages/shared/src/types.ts: what it accepts. The parameters come with the
-- types that TypeScript gives them; a number may be any, a bigint is a signed integer.
use giroledger.Base.{
  ℕ, suc, ◌≤◌, ◌<◌, ◌≡◌, ◌⊎◌, refl, subst, ltb→ge, Bool, true, false, ◌&&◌, ◌||◌, not, [], ◌∷◌, ltb,
  leb, ◌==◌, arith, if◌then◌else◌, length, drop, inl, inr,
}
use giroledger.Base.Int.{ℤ, pos, negsuc}
use giroledger.Base.Text.{Text, codes, starts_with, hex_mark}
use giroledger.Base.Result.{Result, ok, err, ◌>>=◌, ◌>>◌, throw_if, bind-ok, throw_if-ok}
use giroledger.Rules.{Trigger, time, price_below, price_above, CreateRuleParams}
use giroledger.Web.Numbers.{Number, whole}

pub record RawParams : Type 0 where
  pub vault : Text
  pub amount_per_run : ℤ
  pub total_spend_cap : ℤ
  pub interval_secs : Number
  pub max_runs : Number
  pub trigger : Number
  pub start_at : ℤ
  pub threshold_price : ℤ

abbrev pub is_hex : ℕ → Bool
is_hex c = (leb b'a' c && leb c b'f') || (leb b'A' c && leb c b'F') || (leb b'0' c && leb c b'9')

abbrev pub all_hex : Text → Bool
all_hex [] = true
all_hex (c ∷ t) = is_hex c && all_hex t

-- `/^0x[a-fA-F0-9]{40}$/`.
abbrev pub is_address : Text → Bool
is_address v = starts_with v hex_mark && length v == 42 && all_hex (drop 2 v)

-- `z.bigint().positive()` and `.nonnegative()`.
abbrev pub positive : ℤ → Result Text ℕ
positive (pos (suc n)) = ok (suc n)
positive _ = err (codes "must be positive")

abbrev pub nonnegative : ℤ → Result Text ℕ
nonnegative (pos n) = ok n
nonnegative (negsuc n) = err (codes "must not be negative")

-- `z.number().int().min(lo).max(hi)`, for a lower bound that is not negative.
abbrev pub whole_between : (lo hi : ℕ) → Number → Result Text ℕ
whole_between lo hi (whole (pos n)) = throw_if (ltb n lo || ltb hi n) (codes "out of range") >> ok n
whole_between lo hi _ = err (codes "not a whole number in range")

-- The union of the three literals.
abbrev pub trigger_of : Number → Result Text Trigger
trigger_of (whole (pos n)) =
    if n == 0
    then ok time
    else (if n == 1
        then ok price_below
        else (if n == 2 then ok price_above else err (codes "no trigger")))
trigger_of _ = err (codes "no trigger")

abbrev pub is_positive : ℤ → Bool
is_positive (pos n) = ltb 0 n
is_positive (negsuc n) = false

abbrev pub needs_price : Trigger → Bool
needs_price time = false
needs_price _ = true

-- The schema, with its two refinements.
unfoldable pub safe_parse : RawParams → Result Text CreateRuleParams
safe_parse raw = do
  throw_if (not (is_address raw.vault)) (codes "vault must be a 20 byte hex address")
  amount ← positive raw.amount_per_run
  cap ← positive raw.total_spend_cap
  interval ← whole_between 60 31_536_000 raw.interval_secs
  runs ← whole_between 0 65_535 raw.max_runs
  trigger ← trigger_of raw.trigger
  start ← nonnegative raw.start_at
  throw_if (ltb cap amount) (codes "totalSpendCap must be at least amountPerRun")
  throw_if (needs_price trigger && not (is_positive raw.threshold_price))
      (codes "price triggers need a positive thresholdPrice")
  ok (record {
    vault = raw.vault;
    amount_per_run = amount;
    total_spend_cap = cap;
    interval_secs = interval;
    max_runs = runs;
    trigger = trigger;
    start_at = start;
    threshold_price = raw.threshold_price;
  })

-- What the schema promises of the parameters that it accepts.
pub record Valid (p : CreateRuleParams) : Type 0 where
  pub address : is_address p.vault ≡ true
  pub some_amount : 0 < p.amount_per_run
  pub within : p.amount_per_run ≤ p.total_spend_cap
  pub not_short : 60 ≤ p.interval_secs
  pub not_long : p.interval_secs ≤ 31_536_000
  pub sixteen_bits : p.max_runs < 65_536
  pub priced : (p.trigger ≡ time) ⊎ (is_positive p.threshold_price ≡ true)

positive-ok : (z : ℤ) (n : ℕ) → positive z ≡ ok n → 0 < n
positive-ok z n h = ground arith

whole_between-ok :
    (lo hi : ℕ) (k : Number) (n : ℕ) → whole_between lo hi k ≡ ok n → (lo ≤ n) × (n ≤ hi)
whole_between-ok lo hi k n h = ground arith

priced-by : (t : Trigger) (b : Bool) → needs_price t && not b ≡ false → (t ≡ time) ⊎ (b ≡ true)
priced-by time b h = inl refl
priced-by price_below true h = inr refl
priced-by price_below false h = absurd (cc)
priced-by price_above true h = inr refl
priced-by price_above false h = absurd (cc)

ok-injective :
    {p q : CreateRuleParams} → ◌≡◌ {A = Result Text CreateRuleParams} (ok p) (ok q) → p ≡ q
ok-injective h = cc

not-false : (b : Bool) → not b ≡ false → b ≡ true
not-false true h = refl
not-false false h = absurd (cc)

Valid-parts :
    (vault : Text) (amount limit interval runs start : ℕ) (trigger : Trigger) (price : ℤ)
    (p : CreateRuleParams)
    → is_address vault ≡ true
    → 0 < amount
    → ltb limit amount ≡ false
    → (60 ≤ interval) × (interval ≤ 31_536_000)
    → (0 ≤ runs) × (runs ≤ 65_535)
    → (trigger ≡ time) ⊎ (is_positive price ≡ true)
    → ◌≡◌ {A = Result Text CreateRuleParams}
        (ok (record {
          vault = vault;
          amount_per_run = amount;
          total_spend_cap = limit;
          interval_secs = interval;
          max_runs = runs;
          trigger = trigger;
          start_at = start;
          threshold_price = price;
        }))
        (ok p)
    → Valid p
Valid-parts vault amount limit interval runs start trigger price p address more within times few
      priced last =
    subst Valid (ok-injective last) (record {
      address = address;
      some_amount = more;
      within = ltb→ge limit amount within;
      not_short = times.0;
      not_long = times.1;
      sixteen_bits = omega arith;
      priced = priced;
    })

-- The parameters that the schema accepts name a vault by a 20 byte address, move a positive amount
-- per run that is at most the cap, run at an interval between 60 seconds and a year, have a run cap
-- of 16 bits, and have a positive price unless the trigger is the time.
pub safe_parse-Valid : (raw : RawParams) (p : CreateRuleParams) → safe_parse raw ≡ ok p → Valid p
unfolding safe_parse
safe_parse-Valid raw p h =
    let (u0, address, r0) = bind-ok (throw_if (not (is_address raw.vault)) _) _ p h in
    let (amount, h1, r1) = bind-ok (positive raw.amount_per_run) _ p r0 in
    let (cap_, h2, r2) = bind-ok (positive raw.total_spend_cap) _ p r1 in
    let (interval, h3, r3) = bind-ok (whole_between 60 31_536_000 raw.interval_secs) _ p r2 in
    let (runs, h4, r4) = bind-ok (whole_between 0 65_535 raw.max_runs) _ p r3 in
    let (trigger, h5, r5) = bind-ok (trigger_of raw.trigger) _ p r4 in
    let (start, h6, r6) = bind-ok (nonnegative raw.start_at) _ p r5 in
    let (u1, within, r7) = bind-ok (throw_if (ltb cap_ amount) _) _ p r6 in
    let (u2, priced, last) =
      bind-ok (throw_if (needs_price trigger && not (is_positive raw.threshold_price)) _) _ p r7 in
    Valid-parts raw.vault amount cap_ interval runs start trigger raw.threshold_price p
      (not-false _ (throw_if-ok _ _ u0 address)) (positive-ok raw.amount_per_run amount h1)
      (throw_if-ok _ _ u1 within) (whole_between-ok 60 31_536_000 raw.interval_secs interval h3)
      (whole_between-ok 0 65_535 raw.max_runs runs h4)
      (priced-by trigger _ (throw_if-ok _ _ u2 priced)) last
