-- ===== src/Infrastructure/RedisClient.antt =====
-- `RedisClient` of app/infrastructure/cache/redis_client.py, over the commands of the package `redis`.
pub mod Backend
pub mod Texts
pub mod Window
use ai_risk_engine.Application.EventService.{Cache}
use ai_risk_engine.Exec.{Exec, pure, ◌>>=◌, ◌>>◌}
use ai_risk_engine.Prelude.{
  ℕ, Bool, true, false, ◌&&◌, String, Option, none, some, if◌then◌else◌, leb,
}
use ai_risk_engine.Scalability.Lock.{RedisLockBackend}

-- The commands. `set` takes `ex` and `nx` and answers True or None; `incr` answers the new number, and
-- `eval` of a script that deletes keys their number.
pub record Redis (W : Type 0) : Type 0 where
  pub set : String → String → ℕ → Bool → Exec W (Option Bool)
  pub get : String → Exec W (Option String)
  pub exists : String → Exec W ℕ
  pub delete : String → Exec W ℕ
  pub incr : String → Exec W ℕ
  pub expire : String → ℕ → Exec W Bool
  pub eval : String → ℕ → String → String → Exec W ℕ

-- `script`
abbrev pub delete_script : String
delete_script =
    "if redis.call('get', KEYS[1]) == ARGV[1] then return redis.call('del', KEYS[1]) else return 0 end"

-- `bool` of an answer.
abbrev pub is_true : Option Bool → Bool
is_true none = false
is_true (some answer) = answer

abbrev pub is_positive : ℕ → Bool
is_positive n = leb 1 n

module _ {W : Type 0} (client : Redis W) where
  unfoldable pub set_idempotency_key : String → ℕ → Exec W (Option Bool)
  set_idempotency_key key ttl = client.set key "1" ttl true

  unfoldable pub exists : String → Exec W ℕ
  exists key = client.exists key

  unfoldable pub set_cache : String → String → ℕ → Exec W (Unit {0})
  unfolding pure ◌>>=◌
  set_cache key value ttl = do client.set key value ttl false; pure tt

  unfoldable pub get_cache : String → Exec W (Option String)
  get_cache key = client.get key

  -- `if current == 1: await self.client.expire(key, window)`
  unfoldable pub start_window : String → ℕ → ℕ → Exec W (Unit {0})
  unfolding pure ◌>>=◌
  start_window key window current =
      if leb 1 current && leb current 1 then (do client.expire key window; pure tt) else pure tt

  unfoldable pub rate_limit : String → ℕ → ℕ → Exec W Bool
  unfolding pure ◌>>=◌ start_window
  rate_limit key limit window = do
    current ← client.incr key
    start_window key window current
    pure (leb current limit)

  unfoldable pub set_nx_ex : String → String → ℕ → Exec W Bool
  unfolding pure ◌>>=◌
  set_nx_ex key value ttl = do answer ← client.set key value ttl true; pure (is_true answer)

  unfoldable pub get : String → Exec W (Option String)
  get key = client.get key

  unfoldable pub delete_key : String → Exec W (Unit {0})
  unfolding pure ◌>>=◌
  delete_key key = do client.delete key; pure tt

  unfoldable pub delete_if_value : String → String → Exec W Bool
  unfolding pure ◌>>=◌
  delete_if_value key value = do
    result ← client.eval delete_script 1 key value
    pure (is_positive result)

  unfoldable pub incr : String → Exec W ℕ
  incr key = client.incr key

  unfoldable pub expire : String → ℕ → Exec W (Unit {0})
  unfolding pure ◌>>=◌
  expire key seconds = do client.expire key seconds; pure tt

  -- The client as the cache of the services and as the backend of a lock.
  abbrev pub redis_cache : Cache W
  redis_cache = record { get_cache = get_cache; set_cache = set_cache }

  abbrev pub redis_lock_backend : RedisLockBackend W
  redis_lock_backend = record {
    set_nx_ex = set_nx_ex;
    get = get;
    delete_if_value = delete_if_value;
  }
