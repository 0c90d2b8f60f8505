-- ===== src/Observability/Totals.antt =====
-- Dictionaries of running totals, `d[key] = d.get(key, 0) + amount`, as the collectors of
-- app/observability keep them, and the sums that they stand for.
use ai_risk_engine.Prelude.{
  ◌≡◌, sym, ap, Bool-cases, inl, inr, String, Option, none, some, Table, lookup, insert,
  lookup-insert, if◌then◌else◌, ◌==◌, eq_iff,
}
use ai_risk_engine.Prelude.Int.{ℤ, pos, ◌+ℤ◌, add_zero}

abbrev or_zero : Option ℤ → ℤ
or_zero none = pos 0
or_zero (some x) = x

-- `d.get(key, 0)`
unfoldable pub amount_of : String → Table ℤ → ℤ
amount_of key table = or_zero (lookup key table)

-- `d[key] = d.get(key, 0) + amount`
unfoldable pub add_to : String → ℤ → Table ℤ → Table ℤ
unfolding amount_of
add_to key amount table = insert key (amount_of key table +ℤ amount) table

-- The amount, if the key is the one that is asked for.
abbrev pub if_same : String → String → ℤ → ℤ
if_same key asked amount = if key == asked then amount else pos 0

pub amount_of-add_to :
    (asked key : String) (amount : ℤ) (table : Table ℤ)
    → amount_of asked (add_to key amount table) ≡ amount_of asked table +ℤ if_same key asked amount
unfolding amount_of add_to
amount_of-add_to asked key amount table =
    rw (lookup-insert table asked key) (elim (Bool-cases (key == asked)) [
      | inl same ↦ rw same (ap (λ k. amount_of k table +ℤ amount) ((eq_iff key asked).0 same))
      | inr other ↦ rw other (sym (add_zero (amount_of asked table)))
    ])
