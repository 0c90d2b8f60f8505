-- ===== src/Observability/Costs/Conservation.antt =====
-- No cost is lost or counted for another tenant, model or request, up to the rounding of floats.
use ai_risk_engine.Observability.Costs.{
  Floats, CostTracker, Charge, cost_at, add_at, attribute, add_cost, cost_of_tokens,
  add_cost_from_tokens, get_tenant_cost, get_cumulative, get_request_cost,
}
use ai_risk_engine.Prelude.{
  ℕ, ◌≡◌, refl, ap, ◌∙◌, Bool, true, false, Bool-cases, inl, inr, String, Option, none, some, List,
  [], ◌∷◌, Table, lookup-insert, is_empty, if◌then◌else◌, ◌==◌, eq_iff,
}

-- The calls of a tracker that change it.
pub data Call (floats : Floats) : Type 0 where
  cost : Charge floats → Call floats
  tokens : String → ℕ → ℕ → Option String → Option String → Call floats

-- The optional name is there, not empty and the one that is asked for.
abbrev pub names : Option String → String → Bool
names none asked = false
names (some key) asked = if is_empty key then false else key == asked

module _ {floats : Floats} where
  unfoldable pub perform : Call floats → CostTracker floats → CostTracker floats
  unfolding add_cost_from_tokens
  perform (cost charge) tracker = add_cost charge tracker
  perform (tokens tenant_id input output model request) tracker =
      (add_cost_from_tokens tenant_id input output model request tracker).1

  unfoldable pub perform_all : List (Call floats) → CostTracker floats → CostTracker floats
  perform_all [] tracker = tracker
  perform_all (call ∷ calls) tracker = perform_all calls (perform call tracker)

  -- The charge that a call comes down to, at a rate.
  abbrev charge_of : floats.F → Call floats → Charge floats
  charge_of rate (cost charge) = charge
  charge_of rate (tokens tenant_id input output model request) = record {
    tenant_id = tenant_id;
    amount = cost_of_tokens floats rate input output;
    model_version = model;
    request_id = request;
  }

  -- What the calls charge under the names that the test accepts, added to `x` one after the other.
  abbrev pub added : floats.F → (Charge floats → Bool) → List (Call floats) → floats.F → floats.F
  added rate counts [] x = x
  added rate counts (call ∷ calls) x =
      added rate counts calls
        (if counts (charge_of rate call) then floats.add x (charge_of rate call).amount else x)

module _ (floats : Floats) where
  cost_at-add_at :
      (asked key : String) (amount : floats.F) (costs : Table floats.F)
      → cost_at floats asked (add_at floats key amount costs) ≡ (
          if key == asked
          then floats.add (cost_at floats asked costs) amount
          else cost_at floats asked costs)
  unfolding cost_at add_at
  cost_at-add_at asked key amount costs =
      rw (lookup-insert costs asked key) (elim (Bool-cases (key == asked)) [
        | inl same ↦
            rw same
              (ap (λ k. floats.add (cost_at floats k costs) amount) ((eq_iff key asked).0 same))
        | inr other ↦ rw other refl
      ])

  cost_at-attribute :
      (asked : String) (key : Option String) (amount : floats.F) (costs : Table floats.F)
      → cost_at floats asked (attribute floats key amount costs) ≡ (
          if names key asked
          then floats.add (cost_at floats asked costs) amount
          else cost_at floats asked costs)
  unfolding attribute
  cost_at-attribute asked none amount costs = refl
  cost_at-attribute asked (some key) amount costs = elim (Bool-cases (is_empty key)) [
    | inl nothing ↦ rw nothing refl
    | inr something ↦ rw something (cost_at-add_at asked key amount costs)
  ]

module _ {floats : Floats} where
  perform-charge :
      (call : Call floats) (tracker : CostTracker floats)
      → perform call tracker ≡ add_cost (charge_of tracker.rate_per_1k call) tracker
  unfolding perform
  perform-charge (cost charge) tracker = refl
  perform-charge (tokens tenant_id input output model request) tracker = refl

-- The four kinds of totals `after` the calls: what they were `before`, with the amounts that name
-- them added in the order of the calls.
pub record IsCharged {floats : Floats} (calls : List (Call floats))
    (before after : CostTracker floats) : Type 0 where
  pub cumulative :
      get_cumulative after ≡ added before.rate_per_1k (λ charge. true) calls (get_cumulative before)
  pub tenants :
      (asked : String)
      → get_tenant_cost asked after
        ≡ added before.rate_per_1k
            (λ charge. charge.tenant_id == asked)
            calls
            (get_tenant_cost asked before)
  pub requests :
      (asked : String)
      → get_request_cost asked after
        ≡ added before.rate_per_1k
            (λ charge. names charge.request_id asked)
            calls
            (get_request_cost asked before)
  pub models :
      (asked : String)
      → cost_at floats asked after.model_costs
        ≡ added before.rate_per_1k
            (λ charge. names charge.model_version asked)
            calls
            (cost_at floats asked before.model_costs)

module _ {floats : Floats} where
  -- One charge before the others.
  IsCharged-add_cost :
      (call : Call floats) (calls : List (Call floats)) (before after : CostTracker floats)
      → IsCharged calls (add_cost (charge_of before.rate_per_1k call) before) after
      → IsCharged (call ∷ calls) before after
  unfolding add_cost get_cumulative get_tenant_cost get_request_cost
  IsCharged-add_cost call calls before after charged =
      let charge = charge_of before.rate_per_1k call in
      let rest = λ (counts : Charge floats → Bool). added before.rate_per_1k counts calls in
      record {
        cumulative = charged.cumulative;
        tenants = λ asked.
            charged.tenants asked
            ∙ ap (rest (λ c. c.tenant_id == asked))
                (cost_at-add_at floats asked charge.tenant_id charge.amount before.tenant_costs);
        requests = λ asked.
            charged.requests asked
            ∙ ap (rest (λ c. names c.request_id asked)) (
                cost_at-attribute floats asked charge.request_id charge.amount
                  before.request_costs);
        models = λ asked.
            charged.models asked
            ∙ ap (rest (λ c. names c.model_version asked)) (
                cost_at-attribute floats asked charge.model_version charge.amount
                  before.model_costs);
      }

  -- Whatever calls of `add_cost` and `add_cost_from_tokens` are made on a tracker, in any order and
  -- whatever the floats: the cumulative cost is what it was with all their amounts added in the order
  -- of the calls, the cost of each tenant with the amounts charged to it, and the cost of each request
  -- and of each model with the amounts that name it, where an absent or empty name counts for none.
  pub perform_all-IsCharged :
      (calls : List (Call floats)) (tracker : CostTracker floats)
      → IsCharged calls tracker (perform_all calls tracker)
  unfolding perform_all
  perform_all-IsCharged [] tracker = record {
    cumulative = refl;
    tenants = λ asked. refl;
    requests = λ asked. refl;
    models = λ asked. refl;
  }
  perform_all-IsCharged (call ∷ calls) tracker =
      IsCharged-add_cost call calls tracker (perform_all calls (perform call tracker))
        (rw (← perform-charge call tracker) (perform_all-IsCharged calls (perform call tracker)))
