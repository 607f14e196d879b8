-- ===== src/Policies/Policy/Delays.antt =====
-- The delays of `RetryPolicy.delay_for` in coflowai/policies/policy.py stay within bounds.
use coflowai.Base.{ℕ, ◌+◌, ◌*◌, ◌≤◌, ◌<◌, min, arith}
use coflowai.Policies.Policy.{RetryPolicy, draw_range, raw_delay, jittered, delay_for}

jittered-le : (delay draw : ℕ) → draw < draw_range → jittered delay draw ≤ delay
unfolding jittered
jittered-le delay draw h =
    let product : delay * draw ≤ delay * draw_range = grind arith in omega arith

jittered_half : (delay draw : ℕ) → delay ≤ 2 * jittered delay draw + 1
unfolding jittered
jittered_half delay draw = omega arith

-- No delay is longer than `max_delay`, whatever the attempt, the backoff and the draw; and jitter
-- takes at most half of the capped delay away, up to rounding.
pub delay_for_bounds :
    (p : RetryPolicy) (draw attempt : ℕ)
    → draw < draw_range
    → (delay_for p draw attempt ≤ p.max_delay)
      × (min (raw_delay p attempt) p.max_delay ≤ 2 * delay_for p draw attempt + 1)
unfolding delay_for
delay_for_bounds p draw attempt h =
    let capped = min (raw_delay p attempt) p.max_delay in
    ground (arith, jittered-le capped draw h, jittered_half capped draw)
