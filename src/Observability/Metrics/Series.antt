-- ===== src/Observability/Metrics/Series.antt =====
-- Every increment is counted once, in the series that its labels name.
use ai_risk_engine.Observability.Metrics.{
  MetricsCollector, labels_of, tenant_key, category_key, increment,
}
use ai_risk_engine.Observability.Totals.{amount_of}
use ai_risk_engine.Prelude.{
  Bool, false, ◌&&◌, String, Option, none, some, List, [], ◌∷◌, if◌then◌else◌, ◌==◌,
}
use ai_risk_engine.Prelude.Int.{ℤ, pos, ◌+ℤ◌}

-- A counter without labels, or one under a name and a labelled key.
pub data Series : Type 0 where
  plain : String → Series
  labelled : String → String → Series

abbrev pub value_of : Series → MetricsCollector → ℤ
value_of (plain name) m = amount_of name m.counters
value_of (labelled name key) m = amount_of key (labels_of name m)

pub record Increment : Type 0 where
  pub name : String
  pub value : ℤ
  pub tenant_id : Option String
  pub category : Option String

abbrev pub same_series : Series → Series → Bool
same_series (plain a) (plain b) = a == b
same_series (plain a) (labelled b k) = false
same_series (labelled a j) (plain b) = false
same_series (labelled a j) (labelled b k) = (a == b) && (j == k)

-- The tenant goes before the category.
abbrev series : String → Option String → Option String → Series
series name (some tenant_id) category = labelled name (tenant_key name tenant_id)
series name none (some category) = labelled name (category_key name category)
series name none none = plain name

abbrev pub series_of : Increment → Series
series_of i = series i.name i.tenant_id i.category

unfoldable pub increment_all : List Increment → MetricsCollector → MetricsCollector
increment_all [] m = m
increment_all (i ∷ is) m = increment_all is (increment i.name i.value i.tenant_id i.category m)

-- The sum of the increments of a series.
abbrev pub sum_of : Series → List Increment → ℤ
sum_of asked [] = pos 0
sum_of asked (i ∷ is) =
    (if same_series (series_of i) asked then i.value else pos 0) +ℤ sum_of asked is
