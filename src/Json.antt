-- ===== src/Json.antt =====
-- The JSON-like values of `dict[str, Any]`, with Python's truth test and `dict.get`.
use ai_risk_engine.Prelude.{
  Bool, true, false, not, String, Option, none, some, ◌==◌, if◌then◌else◌, is_empty,
}
use ai_risk_engine.Prelude.Int.{ℤ, is_zero}

-- A float is a whole number of ten-thousandths.
mutual
  pub data Value : Type 0 where
    null : Value
    bool : Bool → Value
    int : ℤ → Value
    float : ℤ → Value
    str : String → Value
    list : Items → Value
    dict : Fields → Value

  pub data Items : Type 0 where
    nil : Items
    cons : Value → Items → Items

  pub data Fields : Type 0 where
    end : Fields
    field : String → Value → Fields → Fields

-- `bool(v)`
unfoldable pub truthy : Value → Bool
truthy null = false
truthy (bool b) = b
truthy (int n) = not (is_zero n)
truthy (float x) = not (is_zero x)
truthy (str s) = not (is_empty s)
truthy (list nil) = false
truthy (list (cons v vs)) = true
truthy (dict end) = false
truthy (dict (field k v fs)) = true

-- `d.get(k)`
unfoldable pub get : String → Fields → Option Value
get k end = none
get k (field j v fs) = if j == k then some v else get k fs

-- `d.get(k, v)`
unfoldable pub get_or : String → Fields → Value → Value
unfolding get
get_or k fs v = elim (get k fs) [ none ↦ v | some w ↦ w ]

-- `v == "text"`
unfoldable pub equals_text : Value → String → Bool
equals_text (str s) t = s == t
equals_text _ t = false

-- `d[key] = value`
unfoldable pub put : String → Value → Fields → Fields
put key value end = field key value end
put key value (field k v fs) =
    let rest = put key value fs in if k == key then field key value fs else field k v rest
