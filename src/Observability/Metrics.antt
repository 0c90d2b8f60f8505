-- ===== src/Observability/Metrics.antt =====
-- app/observability/metrics.py. The lock makes each call atomic, so a call is a function of what is
-- kept. Values are floats, in ten-thousandths.
pub mod Series
use Prim.Native.String.{◌++◌}
use ai_risk_engine.Observability.Totals.{add_to}
use ai_risk_engine.Prelude.{
  ℕ, String, Option, none, some, List, [], ◌∷◌, ◌++◌ as append, length, Table, lookup, insert,
}
use ai_risk_engine.Prelude.Int.{ℤ, pos, ◌+ℤ◌}

pub record MetricsCollector : Type 0 where
  pub counters : Table ℤ
  pub counters_by_labels : Table (Table ℤ)
  pub histograms : Table (List ℤ)

-- `MetricsCollector.__init__`, also what `reset` leaves.
abbrev pub new : MetricsCollector
new = record { counters = []; counters_by_labels = []; histograms = [] }

-- `get(name, {})`, `get(name, [])`
abbrev pub entries {ℓ} : {A : Type ℓ} → Option (List A) → List A
entries none = []
entries (some values) = values

abbrev pub labels_of : String → MetricsCollector → Table ℤ
labels_of name m = entries (lookup name m.counters_by_labels)

-- `setdefault(name, {})[key] = get(name, {}).get(key, 0) + value`
abbrev add_labelled : String → String → ℤ → MetricsCollector → MetricsCollector
add_labelled name key value m = record m {
  counters_by_labels = insert name (add_to key value (labels_of name m)) m.counters_by_labels;
}

abbrev pub tenant_key : String → String → String
tenant_key name tenant_id = name ++ (":tenant=" ++ tenant_id)

abbrev pub category_key : String → String → String
category_key name category = name ++ (":category=" ++ category)

-- `increment` with its name, value, tenant and category
unfoldable pub increment :
    String → ℤ → Option String → Option String → MetricsCollector → MetricsCollector
increment name value (some tenant_id) category m =
    add_labelled name (tenant_key name tenant_id) value m
increment name value none (some category) m = add_labelled name (category_key name category) value m
increment name value none none m = record m { counters = add_to name value m.counters }

-- The bucket of a latency: the name, with the node if there is one.
abbrev pub bucket_of : String → Option String → String
bucket_of name none = name
bucket_of name (some node) = name ++ (":node=" ++ node)

abbrev pub values_of : String → MetricsCollector → List ℤ
values_of bucket m = entries (lookup bucket m.histograms)

unfoldable pub observe_latency : String → ℤ → Option String → MetricsCollector → MetricsCollector
observe_latency name latency_ms node m =
    let bucket = bucket_of name node in
    record m {
      histograms = insert bucket (append (values_of bucket m) (latency_ms ∷ [])) m.histograms;
    }

-- `sum(v)`
abbrev sum : List ℤ → ℤ
sum [] = pos 0
sum (x ∷ xs) = x +ℤ sum xs

pub record Histogram : Type 0 where
  pub count : ℕ
  pub sum : ℤ
  pub values : List ℤ

abbrev histogram_of : List ℤ → Histogram
histogram_of values = record { count = length values; sum = sum values; values = values }

abbrev histograms_of : Table (List ℤ) → Table Histogram
histograms_of [] = []
histograms_of (entry ∷ table) = (entry.0, histogram_of entry.1) ∷ histograms_of table

pub record Export : Type 0 where
  pub counters : Table ℤ
  pub counters_by_labels : Table (Table ℤ)
  pub histograms : Table Histogram

unfoldable pub export_metrics : MetricsCollector → Export
export_metrics m = record {
  counters = m.counters;
  counters_by_labels = m.counters_by_labels;
  histograms = histograms_of m.histograms;
}
