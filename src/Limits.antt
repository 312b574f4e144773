-- ===== src/Limits.antt =====
-- apps/operator/src/spike/mintLimits.ts: the replay of the minting limiters' windows and the pre-flight
-- of a mint. Times are seconds, amounts are drops.
pub mod Slide
pub mod Preflight
mod Tests
use giroledger.Base.{
  ℕ, zero, suc, ◌+◌, ◌-◌, ◌*◌, ◌/◌, Bool, true, false, ◌&&◌, ◌||◌, min, max, ltb, leb, ◌==◌,
  if◌then◌else◌,
}

abbrev pub hourly_window : ℕ
hourly_window = 3_600

abbrev pub daily_window : ℕ
daily_window = 86_400

pub record Window : Type 0 where
  pub start : ℕ
  pub used : ℕ
  pub remaining : ℕ
  pub resets_at : ℕ

abbrev pub has_slid : (now window_start size : ℕ) → Bool
has_slid now window_start size = ltb 0 window_start && leb (window_start + size) now

-- What drains away in the windows that have passed.
abbrev pub drained : (used gone : ℕ) → ℕ
drained used gone = if leb used gone then 0 else used - gone

abbrev pub start_at : (now window_start size : ℕ) → ℕ
start_at now window_start size =
    if has_slid now window_start size
    then window_start + (now - window_start) / size * size
    else window_start

abbrev pub used_at : (now window_start used limit size : ℕ) → ℕ
used_at now window_start used limit size =
    if has_slid now window_start size
    then drained used ((now - window_start) / size * limit)
    else used

-- `windowState`.
unfoldable pub window_state : (now window_start used limit size : ℕ) → Window
window_state now window_start used limit size =
    let left = used_at now window_start used limit size in
    record {
      start = start_at now window_start size;
      used = left;
      remaining = if ltb left limit then limit - left else 0;
      resets_at = start_at now window_start size + size;
    }

-- `windowAllowedAt`.
unfoldable pub window_allowed_at : (now start used proposed limit size : ℕ) → Bool → ℕ
window_allowed_at now start used proposed limit size disabled =
    if disabled || (limit == 0 || proposed == 0)
    then now
    else (if leb (used + proposed) limit then now else start + size * (used + proposed) / limit)

-- What the asset manager is asked for; the volumes of the limiters are in units of the granularity.
pub record Limiters : Type 0 where
  pub granularity : ℕ
  pub hourly_limit : ℕ
  pub daily_limit : ℕ
  pub hourly_start : ℕ
  pub hourly_minted : ℕ
  pub daily_start : ℕ
  pub daily_minted : ℕ
  pub unblock_until : ℕ
  pub large_threshold : ℕ
  pub large_delay : ℕ

module _ (l : Limiters) (now : ℕ) where
  abbrev pub disabled : Bool
  disabled = ltb now l.unblock_until

  unfoldable pub hourly : Window
  unfolding window_state
  hourly =
      window_state now l.hourly_start (l.hourly_minted * l.granularity) l.hourly_limit hourly_window

  unfoldable pub daily : Window
  unfolding window_state
  daily = window_state now l.daily_start (l.daily_minted * l.granularity) l.daily_limit daily_window

  -- The largest mint that is said not to be delayed.
  unfoldable pub headroom : ℕ
  headroom =
      min
        (min (if disabled then l.hourly_limit else hourly.remaining)
          (if disabled then l.daily_limit else daily.remaining))
        l.large_threshold

  -- When a mint is said to be executed.
  unfoldable pub allowed_at : ℕ → ℕ
  allowed_at proposed =
      let hourly_at =
        window_allowed_at now hourly.start hourly.used proposed l.hourly_limit hourly_window
          disabled in
      let daily_at =
        window_allowed_at now daily.start daily.used proposed l.daily_limit daily_window disabled in
      let large_at = if ltb l.large_threshold proposed then now + l.large_delay else now in
      max hourly_at (max daily_at large_at)
