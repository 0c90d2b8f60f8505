-- ===== src/Scalability/Partitioning/Range.antt =====
-- Where the tenants go.
use native.Mathlib.Nat.{mod-lt}
use ai_risk_engine.Errors.{value_error}
use ai_risk_engine.Exec.{ok, err}
use ai_risk_engine.Prelude.{ℕ, ◌≡◌, refl, ◌⊎◌, inl, inr, Bool-cases, String, arith}
use ai_risk_engine.Prelude.Int.{ℤ, pos, pos_part, ltb_ℤ, ◌<ℤ◌}
use ai_risk_engine.Scalability.Partitioning.{WorkloadPartitioner, new, get_partition}

-- A partitioner is made for every number of partitions from one up, and every tenant then has a
-- partition from 0 to one less than that number, whatever the hash is; for a lower number there is
-- no partitioner, but a ValueError.
pub new-get_partition :
    (hash : String → ℕ) (n : ℤ) (tenant_id : String)
    → ((p : WorkloadPartitioner) × (new n ≡ ok p) × (pos (get_partition hash p tenant_id) <ℤ n))
      ⊎ ((n <ℤ pos 1)
          × (new n ≡ err (record { cls = value_error; message = "num_partitions must be >= 1" })))
unfolding new get_partition
new-get_partition hash n tenant_id = elim (Bool-cases (ltb_ℤ n (pos 1))) [
  | inl low ↦ inr (ground arith, rw low refl)
  | inr high ↦ inl (
    record { num_partitions = pos_part n },
    rw high refl,
    ground (arith, mod-lt (hash tenant_id) {m = pos_part n} (ground arith)),
  )
]
