-- ===== src/Keeper/Loop.antt =====
-- The loop of `main` in apps/keeper/src/index.ts, its pause between ticks, and the health endpoint.
use native.Mathlib.Nat.{div-lt_iff_lt-mul, lt-div-mul-add, mul-le-mul_left}
use native.Mathlib.Decide.{dec_le}
use giroledger.Base.{
  ℕ, suc, ◌+◌, ◌-◌, ◌*◌, ◌/◌, ◌^◌, ◌≤◌, ◌<◌, ◌≡◌, refl, ◌⊎◌, inl, inr, Bool, false, not, ◌&&◌,
  Option, none, some, arith, ltb, min, ◌++◌,
}
use giroledger.Base.Text.{Text, codes}
use giroledger.Base.Result.{Result, ok, err}
use giroledger.Keeper.Errors.{Thrown, Kind, transient, permanent, classify, backoff_ms}
use giroledger.Keeper.Monad.{Keeper, Health}
use giroledger.Keeper.{Config, Node, tick}

-- The variables of `main`; `failures` is local to it.
pub record Loop : Type 0 where
  pub keeper : Keeper
  pub failures : ℕ

abbrev kind_name : Kind → Text
kind_name transient = codes "transient"
kind_name permanent = codes "permanent"

abbrev with_health : Keeper → Health → Keeper
with_health k h = record k { health = h }

abbrev backoff_cap_ms : ℕ
backoff_cap_ms = 60_000

-- What a round does with the tick's outcome, and the pause before the next; `n / d` is the jitter.
unfoldable pub after_tick : Config → (later n d : ℕ) → ℕ → Keeper × Result Thrown Bool → Loop × ℕ
after_tick config later n d failures (k, ok done) = (
  record {
    keeper = with_health k (record (k.health) {
      last_success_at = some later;
      last_error = none;
      consecutive_failures = 0;
    });
    failures = 0;
  },
  config.poll_interval_ms,
)
after_tick config later n d failures (k, err e) = (
  record {
    keeper = with_health k (record (k.health) {
      last_error = some (kind_name (classify e).kind ++ codes ": " ++ (classify e).reason);
      consecutive_failures = failures + 1;
    });
    failures = failures + 1;
  },
  backoff_ms (failures + 1) config.poll_interval_ms backoff_cap_ms n d,
)

-- One round of the loop.
unfoldable pub loop_round : ℕ → Node → Config → (now later n d : ℕ) → Loop → Loop × ℕ
loop_round fuel node config now later n d s = after_tick config later n d s.failures (
    tick fuel node config
      (with_health s.keeper (record (s.keeper.health) { last_tick_at = some now })))

-- The endpoint's test: no success for five minutes after the last one, or five failures in a row.
abbrev is_stale : ℕ → Option ℕ → Bool
is_stale now none = false
is_stale now (some t) = ltb (5 * 60_000) (now - t)

abbrev pub healthy : ℕ → Health → Bool
healthy now h = not (is_stale now h.last_success_at) && ltb h.consecutive_failures 5

-- The rounded product of a number with a fraction between a half and 1.
jitter_bounds :
    (e n d : ℕ)
    → 0 < d
    → n < d
    → (e ≤ 2 * ((e * (d + n) + d) / (2 * d))) × ((e * (d + n) + d) / (2 * d) ≤ e)
jitter_bounds e n d pos h =
    let q = (e * (d + n) + d) / (2 * d) in
    let two_d : 0 < 2 * d = omega arith in
    let part : e * n ≤ e * d = mul-le-mul_left e (omega arith) in
    let upper : e * (d + n) + d < suc e * (2 * d) = omega arith in
    let below : e * (d + n) + d < q * (2 * d) + 2 * d = lt-div-mul-add two_d in
    let below_e : q < suc e = (div-lt_iff_lt-mul two_d).1 upper in
    (
      elim (dec_le e (2 * q)) [
        | yes fine ↦ fine
        | no far ↦
            let more : d * (2 * q + 1) ≤ d * e = mul-le-mul_left d (omega arith) in
            absurd (omega arith)
      ],
      omega arith,
    )

-- With a random fraction below 1, the back-off lies between half of the doubled and capped delay
-- and the whole of it.
pub backoff_ms_bounds :
    (attempt base cap n d : ℕ)
    → 0 < d
    → n < d
    → (min cap (base * 2 ^ attempt) ≤ 2 * backoff_ms attempt base cap n d)
      × (backoff_ms attempt base cap n d ≤ min cap (base * 2 ^ attempt))
unfolding backoff_ms
backoff_ms_bounds attempt base cap n d pos h =
    jitter_bounds (min cap (base * 2 ^ attempt)) n d pos h

after_tick-failures :
    (config : Config) (later n d failures : ℕ) (r : Keeper × Result Thrown Bool)
    → let (s, pause) = after_tick config later n d failures r in
      (s.keeper.health.consecutive_failures ≡ s.failures)
      × ((s.failures ≡ 0) × (pause ≡ config.poll_interval_ms)
          ⊎ ((s.failures ≡ failures + 1)
              × (pause ≡ backoff_ms (failures + 1) config.poll_interval_ms backoff_cap_ms n d)))
unfolding after_tick
after_tick-failures config later n d failures (k, ok done) = (refl, inl (refl, refl))
after_tick-failures config later n d failures (k, err e) = (refl, inr (refl, refl))

-- After every round of the loop the health endpoint's count of failures is the loop's own. Either
-- it is zero and the pause is the poll interval, or it is one more than before and the pause is the
-- back-off for it.
pub loop_round-failures :
    (fuel : ℕ) (node : Node) (config : Config) (now later n d : ℕ) (s : Loop)
    → let (t, pause) = loop_round fuel node config now later n d s in
      (t.keeper.health.consecutive_failures ≡ t.failures)
      × ((t.failures ≡ 0) × (pause ≡ config.poll_interval_ms)
          ⊎ ((t.failures ≡ s.failures + 1)
              × (pause ≡ backoff_ms (s.failures + 1) config.poll_interval_ms backoff_cap_ms n d)))
unfolding loop_round
loop_round-failures fuel node config now later n d s =
    after_tick-failures config later n d s.failures (tick fuel node config _)

-- With a poll interval of more than a minute and a random fraction below 1, the pause after a round
-- that failed is shorter than the poll interval.
pub loop_round-backoff :
    (fuel : ℕ) (node : Node) (config : Config) (now later n d : ℕ) (s : Loop)
    → 0 < d
    → n < d
    → 60_000 < config.poll_interval_ms
    → 0 < (loop_round fuel node config now later n d s).0.failures
    → (loop_round fuel node config now later n d s).1 < config.poll_interval_ms
loop_round-backoff fuel node config now later n d s pos h long failed = omega (
  arith,
  (loop_round-failures fuel node config now later n d s).1,
  (backoff_ms_bounds (s.failures + 1) config.poll_interval_ms backoff_cap_ms n d pos h).1,
)
