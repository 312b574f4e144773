-- ===== src/Limits/Tests.antt =====
-- An hour's window that is replayed, and a mint that fits behind it.
use giroledger.Base.{◌≤◌, ◌≡◌, ◌↔◌, refl, arith}
use giroledger.Limits.{
  Limiters, window_state, headroom, allowed_at, hourly, daily, window_allowed_at,
}
use giroledger.Limits.Slide.{slide, window_state-slide}
use giroledger.Limits.Preflight.{allowed_at-headroom}

abbrev some_limiters : Limiters
some_limiters = record {
  granularity = 10;
  hourly_limit = 5_000;
  daily_limit = 50_000;
  hourly_start = 3_600;
  hourly_minted = 1_200;
  daily_start = 1;
  daily_minted = 1_200;
  unblock_until = 0;
  large_threshold = 9_000;
  large_delay = 60;
}

-- Two hours have passed, and two limits have drained.
replayed :
    window_state 12_000 3_600 12_000 5_000 3_600
    ≡ record { start = 10_800; used = 2_000; remaining = 3_000; resets_at = 14_400 }
unfolding window_state
replayed = refl

headroom_3000 : headroom some_limiters 12_000 ≡ 3_000
unfolding headroom hourly daily window_state
headroom_3000 = refl

fits_now : allowed_at some_limiters 12_000 3_000 ≡ 12_000
unfolding allowed_at hourly daily window_state window_allowed_at
fits_now = refl

one_too_many : allowed_at some_limiters 12_000 3_001 ≡ 14_400
unfolding allowed_at hourly daily window_state window_allowed_at
one_too_many = refl

window_state-slide_example : slide 12_000 12_000 5_000 3_600 3_600 12_000 ≡ (
  (window_state 12_000 3_600 12_000 5_000 3_600).start,
  (window_state 12_000 3_600 12_000 5_000 3_600).used,
)
window_state-slide_example =
    window_state-slide 12_000 12_000 3_600 12_000 5_000 3_600 (omega arith) (omega arith)
      (omega arith)

allowed_at-headroom_example :
    (allowed_at some_limiters 12_000 3_000 ≤ 12_000) ↔ (3_000 ≤ headroom some_limiters 12_000)
allowed_at-headroom_example =
    allowed_at-headroom some_limiters 12_000 3_000 (omega arith) (omega arith) (omega arith)
      (omega arith) (omega arith) (omega arith) (omega arith)
