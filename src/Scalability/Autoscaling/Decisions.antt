-- ===== src/Scalability/Autoscaling/Decisions.antt =====
-- When the policy of app/scalability/autoscaling_policy.py scales, in which direction.
use ai_risk_engine.Prelude.{
  ℕ, ◌≤◌, ◌<◌, ◌+◌, ◌≡◌, ◌≢◌, ◌⊎◌, ◌↔◌, Bool, true, false, ◌&&◌, ◌||◌, String, Option, none, some,
  arith,
}
use ai_risk_engine.Prelude.Int.{ℤ, pos, ◌≤ℤ◌, ◌<ℤ◌, double}
use ai_risk_engine.Scalability.Autoscaling.{
  ScalingAction, scale_up, scale_down, MetricsSnapshot, AutoScalingPolicy, evaluate, reaches,
  reaches_count, is_at_most, is_below_half, is_count_below_half,
}

abbrev AtLeast : Option ℤ → ℤ → Type 0
AtLeast none up = ⊥
AtLeast (some x) up = up ≤ℤ x

abbrev CountAtLeast : Option ℕ → ℕ → Type 0
CountAtLeast none up = ⊥
CountAtLeast (some n) up = up ≤ n

abbrev AtMost : Option ℤ → ℤ → Type 0
AtMost none down = Unit
AtMost (some x) down = x ≤ℤ down

abbrev BelowHalf : Option ℤ → ℤ → Type 0
BelowHalf none up = Unit
BelowHalf (some x) up = double x <ℤ up

abbrev CountBelowHalf : Option ℕ → ℕ → Type 0
CountBelowHalf none up = Unit
CountBelowHalf (some n) up = n + n < up

-- Some reported metric has reached its scale-up threshold.
abbrev Breached : Option ℤ → Option ℤ → Option ℤ → Option ℕ → AutoScalingPolicy → Type 0
Breached cpu latency failure queue p =
    AtLeast cpu p.cpu_up
    ⊎ AtLeast latency p.latency_up
    ⊎ AtLeast failure p.failure_up
    ⊎ CountAtLeast queue p.queue_up

abbrev pub IsBreached : AutoScalingPolicy → MetricsSnapshot → Type 0
IsBreached p m = Breached m.cpu_usage_pct m.request_latency_p99_ms m.failure_rate m.queue_depth p

-- Every reported metric is low: at most the lower CPU threshold, below half of the others.
abbrev Quiet : Option ℤ → Option ℤ → Option ℤ → Option ℕ → AutoScalingPolicy → Type 0
Quiet cpu latency failure queue p =
    AtMost cpu p.cpu_down
    × BelowHalf latency p.latency_up
    × BelowHalf failure p.failure_up
    × CountBelowHalf queue p.queue_up

abbrev pub IsQuiet : AutoScalingPolicy → MetricsSnapshot → Type 0
IsQuiet p m = Quiet m.cpu_usage_pct m.request_latency_p99_ms m.failure_rate m.queue_depth p

abbrev any_reached : Option ℤ → Option ℤ → Option ℤ → Option ℕ → AutoScalingPolicy → Bool
any_reached cpu latency failure queue p =
    reaches cpu p.cpu_up
    || reaches latency p.latency_up
    || reaches failure p.failure_up
    || reaches_count queue p.queue_up

abbrev all_low : Option ℤ → Option ℤ → Option ℤ → Option ℕ → AutoScalingPolicy → Bool
all_low cpu latency failure queue p =
    is_at_most cpu p.cpu_down
    && is_below_half latency p.latency_up
    && is_below_half failure p.failure_up
    && is_count_below_half queue p.queue_up

any_reached_iff :
    (c l f : Option ℤ) (q : Option ℕ) (p : AutoScalingPolicy)
    → (any_reached c l f q p ≡ true) ↔ Breached c l f q p
unfolding reaches reaches_count
any_reached_iff none none none none p = ground arith
any_reached_iff _ _ _ _ p = ground arith

all_low_iff :
    (c l f : Option ℤ) (q : Option ℕ) (p : AutoScalingPolicy)
    → (all_low c l f q p ≡ true) ↔ Quiet c l f q p
unfolding is_at_most is_below_half is_count_below_half
all_low_iff none none none none p = ground arith
all_low_iff _ _ _ _ p = ground arith

reached-not-low :
    (c l f : Option ℤ) (q : Option ℕ) (p : AutoScalingPolicy)
    → p.cpu_down <ℤ p.cpu_up
    → pos 0 ≤ℤ p.latency_up
    → pos 0 ≤ℤ p.failure_up
    → any_reached c l f q p ≡ true
    → all_low c l f q p ≡ false
unfolding reaches reaches_count is_at_most is_below_half is_count_below_half
reached-not-low none none none none p hc hl hf h = ground arith
reached-not-low _ _ _ _ p hc hl hf h = ground arith

module _ (float_str : ℤ → String) (int_str : ℕ → String) where
  abbrev action_of : AutoScalingPolicy → MetricsSnapshot → ScalingAction
  action_of p m = (evaluate float_str int_str p m).action

  -- The policy scales up exactly if a metric is breached and there is room below the maximum. It
  -- scales down exactly if it does not scale up, there is room above the minimum, and every reported
  -- metric is low.
  pub evaluate_decides :
      (p : AutoScalingPolicy) (m : MetricsSnapshot)
      → ((action_of p m ≡ scale_up) ↔ (IsBreached p m × (m.current_replicas < p.max_replicas)))
        × ((action_of p m ≡ scale_down)
            ↔ ((action_of p m ≢ scale_up) × (p.min_replicas < m.current_replicas) × IsQuiet p m))
  unfolding evaluate
  evaluate_decides p m =
      let reached =
        any_reached_iff m.cpu_usage_pct m.request_latency_p99_ms m.failure_rate m.queue_depth p in
      let low =
        all_low_iff m.cpu_usage_pct m.request_latency_p99_ms m.failure_rate m.queue_depth p in
      (
        (λ e. (reached.0 (ground arith), ground arith), λ b. let t = reached.1 b.0 in ground arith),
        (
          λ e. (ground arith, ground arith, low.0 (ground arith)),
          λ q. let t = low.1 q.2 in ground arith,
        ),
      )

  -- With the lower CPU threshold below the upper one, and latency, failure and queue thresholds that
  -- are not negative, a breached metric never makes the policy scale down, also at the maximum.
  pub breach_never_shrinks :
      (p : AutoScalingPolicy) (m : MetricsSnapshot)
      → p.cpu_down <ℤ p.cpu_up
      → pos 0 ≤ℤ p.latency_up
      → pos 0 ≤ℤ p.failure_up
      → IsBreached p m
      → action_of p m ≢ scale_down
  unfolding evaluate
  breach_never_shrinks p m c l f b =
      let reached =
        any_reached_iff m.cpu_usage_pct m.request_latency_p99_ms m.failure_rate m.queue_depth p in
      let t = reached.1 b in
      let loud =
        reached-not-low m.cpu_usage_pct m.request_latency_p99_ms m.failure_rate m.queue_depth p c l
          f t in
      λ e. ground arith
