-- ===== src/Infrastructure/RedisClient/Texts.antt =====
-- The Redis client as a store of texts.
use ai_risk_engine.Exec.{Result, ok, pure, returned, ◌>>=◌}
use ai_risk_engine.Exec.Keeps.{Keeps}
use ai_risk_engine.Infrastructure.RedisClient.{Redis, get_cache, set_cache, redis_cache}
use ai_risk_engine.Prelude.{
  ℕ, ◌≡◌, refl, ap, ◌∙◌, true, false, String, Option, some, if◌then◌else◌, ◌==◌,
}
use ai_risk_engine.Workflow.RedisStore.Refinement.{IsTextMap}

-- Documented behaviour of GET and of SET without NX, within the time to live.
pub record IsTextStore {W : Type 0} (client : Redis W) (view : W → String → Option String)
    : Type 0 where
  pub get_reads : (k : String) (w : W) → client.get k w ≡ (ok (view w k), w)
  pub set_answers : (k v : String) (t : ℕ) (w : W) → (client.set k v t false w).0 ≡ ok (some true)
  pub set_stores :
      (k v : String) (t : ℕ) (w : W) (asked : String)
      → view (client.set k v t false w).1 asked ≡ (if k == asked then some v else view w asked)

module _ {W : Type 0} {client : Redis W} {view : W → String → Option String}
    (laws : IsTextStore client view) where
  set_cache_lem :
      (k v : String) (t : ℕ) (w : W)
      → set_cache client k v t w ≡ (ok tt, (client.set k v t false w).1)
  unfolding set_cache pure ◌>>=◌
  set_cache_lem k v t w = rw (returned (client.set k v t false w) (laws.set_answers k v t w)) refl

  -- As the cache of the services the client is a map from texts to texts.
  pub redis_cache-IsTextMap : IsTextMap (redis_cache client) view
  unfolding get_cache
  redis_cache-IsTextMap = record {
    get_reads = laws.get_reads;
    set_ok = λ k v t w. ap (λ (r : Result (Unit {0}) × W). r.0) (set_cache_lem k v t w);
    set_view = λ k v t w asked.
        ap (λ (r : Result (Unit {0}) × W). view r.1 asked) (set_cache_lem k v t w)
        ∙ laws.set_stores k v t w asked;
  }

  -- A write to one key leaves the others alone, and a read all of them.
  pub Keeps-set_cache :
      (k v : String) (t : ℕ) (asked : String)
      → (k == asked) ≡ false
      → Keeps (λ w. view w asked) (set_cache client k v t)
  Keeps-set_cache k v t asked other = record {
    at = λ w. redis_cache-IsTextMap.set_view k v t w asked ∙ rw other refl;
  }

  pub Keeps-get_cache : (k asked : String) → Keeps (λ w. view w asked) (get_cache client k)
  unfolding get_cache
  Keeps-get_cache k asked = record {
    at = λ w. ap (λ (r : Result (Option String) × W). view r.1 asked) (laws.get_reads k w);
  }
