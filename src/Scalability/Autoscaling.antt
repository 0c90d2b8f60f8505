-- ===== src/Scalability/Autoscaling.antt =====
-- app/scalability/autoscaling_policy.py. Replicas and queue depths are natural numbers. How Python
-- prints floats and ints in the reason is a parameter. A test `x < y * 0.5` is `2 * x < y`.
pub mod Decisions
use Prim.Native.String.{◌++◌}
use ai_risk_engine.Prelude.{
  ℕ, ◌+◌, Bool, true, false, ◌&&◌, ◌||◌, String, Option, none, some, if◌then◌else◌, ltb, leb,
}
use ai_risk_engine.Prelude.Int.{ℤ, leb_ℤ, ltb_ℤ, double}

pub data ScalingAction : Type 0 where
  scale_up scale_down no_action : ScalingAction

pub record ScalingDecision : Type 0 where
  pub action : ScalingAction
  pub reason : String

pub record MetricsSnapshot : Type 0 where
  pub cpu_usage_pct : Option ℤ
  pub request_latency_p99_ms : Option ℤ
  pub failure_rate : Option ℤ
  pub queue_depth : Option ℕ
  pub current_replicas : ℕ

pub record AutoScalingPolicy : Type 0 where
  pub cpu_up : ℤ
  pub cpu_down : ℤ
  pub latency_up : ℤ
  pub failure_up : ℤ
  pub queue_up : ℕ
  pub min_replicas : ℕ
  pub max_replicas : ℕ

-- `m.x is not None and m.x >= threshold`
unfoldable pub reaches : Option ℤ → ℤ → Bool
reaches none up = false
reaches (some x) up = leb_ℤ up x

unfoldable pub reaches_count : Option ℕ → ℕ → Bool
reaches_count none up = false
reaches_count (some n) up = leb up n

-- `m.cpu_usage_pct is None or m.cpu_usage_pct <= self._cpu_down`
unfoldable pub is_at_most : Option ℤ → ℤ → Bool
is_at_most none down = true
is_at_most (some x) down = leb_ℤ x down

-- `m.x is None or m.x < threshold * 0.5`
unfoldable pub is_below_half : Option ℤ → ℤ → Bool
is_below_half none up = true
is_below_half (some x) up = ltb_ℤ (double x) up

unfoldable pub is_count_below_half : Option ℕ → ℕ → Bool
is_count_below_half none up = true
is_count_below_half (some n) up = ltb (n + n) up

abbrev printed {ℓ} : {A : Type ℓ} → (A → String) → Option A → String
printed str none = "None"
printed str (some x) = str x

abbrev decide : ScalingAction → String → ScalingDecision
decide a r = record { action = a; reason = r }

module _ (float_str : ℤ → String) (int_str : ℕ → String) where
  -- `AutoScalingPolicy.evaluate`, the part after the scale-up conditions
  unfoldable pub evaluate_down : AutoScalingPolicy → MetricsSnapshot → ScalingDecision
  evaluate_down p m =
      if leb m.current_replicas p.min_replicas
      then decide no_action "at min_replicas"
      else if is_at_most m.cpu_usage_pct p.cpu_down
          && is_below_half m.request_latency_p99_ms p.latency_up
          && is_below_half m.failure_rate p.failure_up
          && is_count_below_half m.queue_depth p.queue_up
      then decide scale_down "all metrics below scale-down thresholds"
      else decide no_action "no scaling signal"

  -- `AutoScalingPolicy.evaluate`
  unfoldable pub evaluate : AutoScalingPolicy → MetricsSnapshot → ScalingDecision
  unfolding evaluate_down
  evaluate p m =
      let room = ltb m.current_replicas p.max_replicas in
      if reaches m.cpu_usage_pct p.cpu_up && room
      then decide scale_up (
          "cpu_usage=" ++ printed float_str m.cpu_usage_pct ++ "% >= " ++ float_str p.cpu_up ++ "%")
      else if reaches m.request_latency_p99_ms p.latency_up && room
      then decide scale_up (
          "latency_p99="
          ++ printed float_str m.request_latency_p99_ms
          ++ "ms >= "
          ++ float_str p.latency_up
          ++ "ms")
      else if reaches m.failure_rate p.failure_up && room
      then decide scale_up
          ("failure_rate=" ++ printed float_str m.failure_rate ++ " >= " ++ float_str p.failure_up)
      else if reaches_count m.queue_depth p.queue_up && room
      then decide scale_up
          ("queue_depth=" ++ printed int_str m.queue_depth ++ " >= " ++ int_str p.queue_up)
      else evaluate_down p m
