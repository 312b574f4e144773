-- ===== src/Limits/Preflight.antt =====
-- The largest mint without a delay, against the time at which a mint is executed.
use native.Mathlib.Nat.{lt-div-mul-add, le-div_iff_mul-le, mul-le-mul_left}
use giroledger.Base.{
  ℕ, ◌+◌, ◌-◌, ◌*◌, ◌/◌, ◌≤◌, ◌<◌, ◌≡◌, ◌↔◌, true, false, arith, leb, ltb, if◌then◌else◌,
  Bool-cases, inl, inr, min, max, leb→gt, leb→le, lt→ltb,
}
use giroledger.Limits.{
  Limiters, window_state, window_allowed_at, hourly, daily, headroom, allowed_at, hourly_window,
  daily_window, start_at,
}

-- The window that is replayed has not passed.
start_at-lt : (now start size : ℕ) → 0 < start → 0 < size → now < start_at now start size + size
start_at-lt now start size begun sized = elim (Bool-cases (leb (start + size) now)) [
  | inr fresh ↦ rw (lt→ltb 0 start begun, fresh) (leb→gt (start + size) now fresh)
  | inl passed ↦
      let late = leb→le (start + size) now passed in
      let high : now - start < (now - start) / size * size + size = lt-div-mul-add sized in
      rw (lt→ltb 0 start begun, passed) (omega arith)
]

-- An overflow drains after the window at the earliest.
overflow-late : (size after limit : ℕ) → 0 < limit → limit ≤ after → size ≤ size * after / limit
overflow-late size after limit limited over =
    (le-div_iff_mul-le limited).1 (mul-le-mul_left size over)

-- A window that has not passed delays exactly what does not fit.
window_allowed_at-le :
    (now start used proposed limit size : ℕ)
    → now < start + size
    → 0 < limit
    → 0 < proposed
    → (window_allowed_at now start used proposed limit size false ≤ now)
      ↔ (proposed ≤ (if ltb used limit then limit - used else 0))
unfolding window_allowed_at
window_allowed_at-le now start used proposed limit size running limited some_amount =
    elim (Bool-cases (leb (used + proposed) limit)) [
      | inl fits ↦
          let small = leb→le (used + proposed) limit fits in (λ _. ground arith, λ _. ground arith)
      | inr over ↦
          let large = leb→gt (used + proposed) limit over in
          let late = overflow-late size (used + proposed) limit limited (omega arith) in
          (λ h. ground arith, λ h. ground arith)
    ]

-- The last of three times against the least of three amounts.
max-min :
    {n p a b x y : ℕ} (t d : ℕ)
    → 0 < d
    → (a ≤ n) ↔ (p ≤ x)
    → (b ≤ n) ↔ (p ≤ y)
    → (max a (max b (if ltb t p then n + d else n)) ≤ n) ↔ (p ≤ min (min x y) t)
max-min t d later (a_fits, fits_a) (b_fits, fits_b) = (
  λ h. let fits_x = a_fits (omega arith) in let fits_y = b_fits (omega arith) in ground arith,
  λ h. let a_now = fits_a (omega arith) in let b_now = fits_b (omega arith) in ground arith,
)

-- Where the limiters are on, both windows have begun and both limits, the delay of a large mint and
-- the mint are positive, the pre-flight finds no delay exactly for a mint of at most the headroom.
pub allowed_at-headroom :
    (l : Limiters) (now proposed : ℕ)
    → l.unblock_until ≤ now
    → 0 < l.hourly_start
    → 0 < l.daily_start
    → 0 < l.hourly_limit
    → 0 < l.daily_limit
    → 0 < l.large_delay
    → 0 < proposed
    → (allowed_at l now proposed ≤ now) ↔ (proposed ≤ headroom l now)
unfolding allowed_at headroom hourly daily window_state
allowed_at-headroom l now proposed active hour_begun day_begun hour_limited day_limited later
      some_amount =
    let hour = hourly l now in
    let day = daily l now in
    let on : ltb now l.unblock_until ≡ false = ground arith in
    rw on (
      max-min l.large_threshold l.large_delay later
        (window_allowed_at-le now hour.start hour.used proposed l.hourly_limit hourly_window
          (start_at-lt now l.hourly_start hourly_window hour_begun (omega arith)) hour_limited
          some_amount)
        (window_allowed_at-le now day.start day.used proposed l.daily_limit daily_window
          (start_at-lt now l.daily_start daily_window day_begun (omega arith)) day_limited
          some_amount))

max-threshold : (n p t d : ℕ) → 0 < d → (max n (max n (if ltb t p then n + d else n)) ≤ n) ↔ (p ≤ t)
max-threshold n p t d later = (λ h. ground arith, λ h. ground arith)

-- While the limiters are off, only a large mint is delayed.
pub allowed_at-disabled :
    (l : Limiters) (now proposed : ℕ)
    → now < l.unblock_until
    → 0 < l.large_delay
    → (allowed_at l now proposed ≤ now) ↔ (proposed ≤ l.large_threshold)
unfolding allowed_at window_allowed_at
allowed_at-disabled l now proposed unblocked later =
    let off : ltb now l.unblock_until ≡ true = ground arith in
    rw off (max-threshold now proposed l.large_threshold l.large_delay later)
