-- ===== src/Scalability/Partitioning.antt =====
-- app/scalability/workload_partitioning.py. The hash, `int(sha256(tenant_id).hexdigest(), 16)`, is a
-- parameter.
pub mod Range
use ai_risk_engine.Errors.{value_error}
use ai_risk_engine.Exec.{Result, ok, err}
use ai_risk_engine.Prelude.{ℕ, ◌%◌, String, if◌then◌else◌}
use ai_risk_engine.Prelude.Int.{ℤ, pos, pos_part, ltb_ℤ}

pub record WorkloadPartitioner : Type 0 where
  pub num_partitions : ℕ

-- `WorkloadPartitioner.__init__`
unfoldable pub new : ℤ → Result WorkloadPartitioner
new num_partitions =
    if ltb_ℤ num_partitions (pos 1)
    then err (record { cls = value_error; message = "num_partitions must be >= 1" })
    else ok (record { num_partitions = pos_part num_partitions })

unfoldable pub get_partition : (String → ℕ) → WorkloadPartitioner → String → ℕ
get_partition hash partitioner tenant_id = hash tenant_id % partitioner.num_partitions
