-- ===== src/Workflow/RedisStore/Refinement.antt =====
-- The store over Redis implements two maps from event ids to states.
use Prim.Native.String.{◌++◌}
use text.Mathlib.TextLemmas.{append_assoc}
use ai_risk_engine.Application.EventService.{Cache}
use ai_risk_engine.Exec.{Exec, Result, ok, err, pure, lift, proceed, returned, ◌>>=◌, ◌>>◌}
use ai_risk_engine.Prelude.{
  ℕ, ◌≡◌, refl, sym, ap, ◌∙◌, ◌≢◌, Bool, true, false, String, Option, none, some, List, [], ◌∷◌,
  All, if◌then◌else◌, ◌==◌, eq_iff, prefixed_eq, arith,
}
use ai_risk_engine.Workflow.Compliance.{ComplianceState}
use ai_risk_engine.Workflow.RedisStore.{
  RedisWorkflowStateStore, key, compliance_key, state_ttl, get_risk_state, set_risk_state,
  get_compliance_state, set_compliance_state, parsed,
}
use ai_risk_engine.Workflow.State.{RiskState}

-- Documented behaviour of the Redis commands GET and SET within the time to live: `view` is what is
-- stored, a read changes nothing, and a write sets its own key alone.
pub record IsTextMap {W : Type 0} (redis : Cache W) (view : W → String → Option String)
    : Type 0 where
  pub get_reads : (k : String) (w : W) → redis.get_cache k w ≡ (ok (view w k), w)
  pub set_ok : (k v : String) (t : ℕ) (w : W) → (redis.set_cache k v t w).0 ≡ ok tt
  pub set_view :
      (k v : String) (t : ℕ) (w : W) (asked : String)
      → view (redis.set_cache k v t w).1 asked ≡ (if k == asked then some v else view w asked)

-- A write of one of the two workflows.
pub data Write : Type 0 where
  risk : String → RiskState → Write
  compliance : String → ComplianceState → Write

-- What the two maps hold under an id after the writes, if they held `before`.
abbrev pub latest_risk : String → List Write → Option RiskState → Option RiskState
latest_risk asked [] before = before
latest_risk asked (risk id s ∷ writes) before =
    latest_risk asked writes (if id == asked then some s else before)
latest_risk asked (compliance id s ∷ writes) before = latest_risk asked writes before

abbrev pub latest_compliance : String → List Write → Option ComplianceState → Option ComplianceState
latest_compliance asked [] before = before
latest_compliance asked (compliance id s ∷ writes) before =
    latest_compliance asked writes (if id == asked then some s else before)
latest_compliance asked (risk id s ∷ writes) before = latest_compliance asked writes before

-- The id of a risk event does not begin with "compliance:".
abbrev pub IsPlain : String → Type 0
IsPlain id = (rest : String) → id ≢ "compliance:" ++ rest

abbrev some_of : {S : Type 0} → Result S → Result (Option S)
some_of (ok s) = ok (some s)
some_of (err e) = err e

-- What a stored text is read as.
abbrev decoded : {S : Type 0} → (String → Result S) → Option String → Result (Option S)
decoded load none = ok none
decoded load (some raw) = some_of (load raw)

parsed-decoded :
    {W S : Type 0} (load : String → Result S) (o : Option String) (w : W)
    → parsed load o w ≡ (decoded load o, w)
unfolding pure lift ◌>>=◌
parsed-decoded load none w = refl
parsed-decoded load (some raw) w = parsed_text (load raw) w
  where
    parsed_text :
        {W S : Type 0} (r : Result S) (w : W) → proceed (λ s. pure (some s)) (r, w) ≡ (some_of r, w)
    parsed_text (ok s) w = refl
    parsed_text (err e) w = refl

-- A state that is written over what was read before.
decoded-write :
    {S : Type 0} (load : String → Result S) (dump : S → String) (s : S) (same : Bool)
    (stored : Option String) (before : Option S)
    → load (dump s) ≡ ok s
    → decoded load stored ≡ ok before
    → decoded load (if same then some (dump s) else stored) ≡ ok (if same then some s else before)
decoded-write load dump s true stored before printed h = ap some_of printed
decoded-write load dump s false stored before printed h = h

module _ {W : Type 0} (store : RedisWorkflowStateStore W) where
  abbrev pub perform : Write → Exec W (Unit {0})
  perform (risk id s) = set_risk_state store id s state_ttl
  perform (compliance id s) = set_compliance_state store id s state_ttl

  unfoldable pub perform_all : List Write → Exec W (Unit {0})
  unfolding pure ◌>>=◌
  perform_all [] = pure tt
  perform_all (write ∷ writes) = do perform write; perform_all writes

  -- The id may be used, and the state is read back from its JSON form.
  abbrev pub IsWritable : Write → Type 0
  IsWritable (risk id s) = IsPlain id × (store.load_risk (store.dump_risk s) ≡ ok s)
  IsWritable (compliance id s) = store.load_compliance (store.dump_compliance s) ≡ ok s

  key_eq : (a b : String) → (key store a == key store b) ≡ (a == b)
  unfolding key
  key_eq a b = prefixed_eq store.prefix (":" ++ a) (":" ++ b) ∙ prefixed_eq ":" a b

  compliance_key_eq : (a b : String) → (compliance_key store a == compliance_key store b) ≡ (a == b)
  unfolding compliance_key
  compliance_key_eq a b =
      prefixed_eq store.prefix (":compliance:" ++ a) (":compliance:" ++ b)
      ∙ prefixed_eq ":compliance:" a b

  keys_differ : (a b : String) → IsPlain a → (key store a == compliance_key store b) ≡ false
  unfolding key compliance_key
  keys_differ a b plain =
      let split = append_assoc ":" "compliance:" b in
      ap (λ t. (store.prefix ++ (":" ++ a)) == (store.prefix ++ t)) split
      ∙ prefixed_eq store.prefix (":" ++ a) (":" ++ ("compliance:" ++ b))
      ∙ prefixed_eq ":" a ("compliance:" ++ b)
      ∙ ground (arith, eq_iff a ("compliance:" ++ b), plain b)

  differ_keys : (a b : String) → IsPlain a → (compliance_key store b == key store a) ≡ false
  differ_keys a b plain = ground (
    arith,
    keys_differ a b plain,
    eq_iff (key store a) (compliance_key store b),
    eq_iff (compliance_key store b) (key store a),
  )

  module _ {view : W → String → Option String} (text_map : IsTextMap store.redis view) where
    abbrev risk_read : String → W → Result (Option RiskState)
    risk_read id w = decoded store.load_risk (view w (key store id))

    abbrev compliance_read : String → W → Result (Option ComplianceState)
    compliance_read id w = decoded store.load_compliance (view w (compliance_key store id))

    get_risk_state-reads : (id : String) (w : W) → get_risk_state store id w ≡ (risk_read id w, w)
    unfolding get_risk_state ◌>>=◌
    get_risk_state-reads id w = rw (text_map.get_reads, parsed-decoded) refl

    get_compliance_state-reads :
        (id : String) (w : W) → get_compliance_state store id w ≡ (compliance_read id w, w)
    unfolding get_compliance_state ◌>>=◌
    get_compliance_state-reads id w = rw (text_map.get_reads, parsed-decoded) refl

    -- The two maps after one write, next to the maps before it.
    record Performed (write : Write) (id : String) (r : Option RiskState)
        (c : Option ComplianceState) (w : W) : Type 0 where
      written : (perform write w).0 ≡ ok tt
      risk_after : risk_read id (perform write w).1 ≡ ok (latest_risk id (write ∷ []) r)
      compliance_after :
          compliance_read id (perform write w).1 ≡ ok (latest_compliance id (write ∷ []) c)

    perform_once :
        (write : Write) (id : String) (r : Option RiskState) (c : Option ComplianceState) (w : W)
        → IsWritable write
        → IsPlain id
        → risk_read id w ≡ ok r
        → compliance_read id w ≡ ok c
        → Performed write id r c w
    unfolding set_risk_state set_compliance_state
    perform_once (risk a s) id r c w (plain, printed) plain_id hr hc = record {
      written = text_map.set_ok (key store a) _ _ w;
      risk_after =
          rw
            (
              text_map.set_view (key store a) (store.dump_risk s) state_ttl w (key store id),
              key_eq a id,
            )
            (decoded-write store.load_risk store.dump_risk s _ _ r printed hr);
      compliance_after =
          rw
            (
              text_map.set_view (key store a) (store.dump_risk s) state_ttl w
                  (compliance_key store id),
              keys_differ a id plain,
            )
            hc;
    }
    perform_once (compliance a s) id r c w printed plain_id hr hc = record {
      written = text_map.set_ok (compliance_key store a) _ _ w;
      risk_after =
          rw
            (
              text_map.set_view (compliance_key store a) (store.dump_compliance s) state_ttl w
                  (key store id),
              differ_keys id a plain_id,
            )
            hr;
      compliance_after =
          rw
            (
              text_map.set_view (compliance_key store a) (store.dump_compliance s) state_ttl w
                  (compliance_key store id),
              compliance_key_eq a id,
            )
            (decoded-write store.load_compliance store.dump_compliance s _ _ c printed hc);
    }

    perform_all-reads :
        (writes : List Write) (id : String) (r : Option RiskState) (c : Option ComplianceState)
        (w : W)
        → All IsWritable writes
        → IsPlain id
        → risk_read id w ≡ ok r
        → compliance_read id w ≡ ok c
        → ((perform_all writes w).0 ≡ ok tt)
          × (risk_read id (perform_all writes w).1 ≡ ok (latest_risk id writes r))
          × (compliance_read id (perform_all writes w).1 ≡ ok (latest_compliance id writes c))
    unfolding perform_all pure ◌>>=◌
    perform_all-reads [] id r c w writable plain hr hc = (refl, hr, hc)
    perform_all-reads (risk a s ∷ writes) id r c w writable plain hr hc =
        let done = perform_once (risk a s) id r c w writable.0 plain hr hc in
        rw (returned (perform (risk a s) w) done.written)
          (perform_all-reads writes id _ _ _ writable.1 plain done.risk_after done.compliance_after)
    perform_all-reads (compliance a s ∷ writes) id r c w writable plain hr hc =
        let done = perform_once (compliance a s) id r c w writable.0 plain hr hc in
        rw (returned (perform (compliance a s) w) done.written)
          (perform_all-reads writes id _ _ _ writable.1 plain done.risk_after done.compliance_after)

    -- The Redis store implements two separate maps from event ids to states: after any writes of both
    -- workflows, in any order, each reads under an id the state that it wrote last under that id, or
    -- what it read before the writes if it wrote none, and reading changes nothing; the client reads
    -- and writes as Redis documents it within the time to live, every written state is read back from
    -- its JSON form, and no id of a risk event begins with "compliance:".
    pub perform_all-refines :
        (writes : List Write) (id : String) (r : Option RiskState) (c : Option ComplianceState)
        (w : W)
        → All IsWritable writes
        → IsPlain id
        → get_risk_state store id w ≡ (ok r, w)
        → get_compliance_state store id w ≡ (ok c, w)
        → (let w' = (perform_all writes w).1 in
            (perform_all writes w ≡ (ok tt, w'))
            × (get_risk_state store id w' ≡ (ok (latest_risk id writes r), w'))
            × (get_compliance_state store id w' ≡ (ok (latest_compliance id writes c), w')))
    perform_all-refines writes id r c w writable plain hr hc =
        let before_risk =
          ap (λ (x : Result (Option RiskState) × W). x.0) (sym (get_risk_state-reads id w) ∙ hr) in
        let before_compliance =
          ap (λ (x : Result (Option ComplianceState) × W). x.0)
            (sym (get_compliance_state-reads id w) ∙ hc) in
        let (written, after_risk, after_compliance) =
          perform_all-reads writes id r c w writable plain before_risk before_compliance in
        let w' = (perform_all writes w).1 in
        (
          returned (perform_all writes w) written,
          get_risk_state-reads id w' ∙ ap (λ x. (x, w')) after_risk,
          get_compliance_state-reads id w' ∙ ap (λ x. (x, w')) after_compliance,
        )
