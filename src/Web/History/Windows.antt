-- ===== src/Web/History/Windows.antt =====
-- The windows of `getExecutions`: what they cover and how wide they are.
use giroledger.Base.{ℕ, zero, suc, ◌+◌, ◌-◌, ◌*◌, ◌≤◌, ◌<◌, arith, All, ◌≡◌}
use giroledger.Web.History.{max_log_span, earliest_block, ranges}

-- Each window spans at most 30 blocks.
pub ranges-narrow :
    (fuel earliest to : ℕ)
    → All (λ w. (w.0 ≤ w.1) × (w.1 < w.0 + max_log_span)) (ranges fuel earliest to)
unfolding ranges
ranges-narrow zero earliest to = tt
ranges-narrow (suc fuel) earliest to =
    ground (arith, ranges-narrow fuel earliest (to - max_log_span))

ranges-above :
    (fuel earliest to : ℕ)
    → to ≡ earliest + max_log_span * fuel
    → All (λ w. earliest < w.0) (ranges fuel earliest to)
unfolding ranges
ranges-above zero earliest to h = tt
ranges-above (suc fuel) earliest to h =
    ground (arith, ranges-above fuel earliest (to - max_log_span))

-- Where the head is further away than the windows reach, each window starts behind the first block
-- that the history names, which is therefore not read.
pub ranges-earliest :
    (head windows : ℕ)
    → max_log_span * windows < head
    → All
        (λ w. earliest_block head windows < w.0)
        (ranges windows (earliest_block head windows) head)
ranges-earliest head windows h =
    ranges-above windows (earliest_block head windows) head (ground arith)
