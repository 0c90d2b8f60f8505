-- ===== src/Infrastructure/RedisClient/Backend.antt =====
-- The Redis client as the backend of a lock.
use ai_risk_engine.Exec.{Result, ok, pure, proceed, returned, ◌>>=◌}
use ai_risk_engine.Infrastructure.RedisClient.{
  Redis, delete_script, is_true, is_positive, set_nx_ex, delete_if_value, redis_lock_backend,
}
use ai_risk_engine.Prelude.{
  ℕ, ◌≡◌, refl, ap, ◌∙◌, Bool, true, false, ◌&&◌, String, Option, none, some, if◌then◌else◌, ◌==◌,
}
use ai_risk_engine.Scalability.Lock.Backend.{IsLockBackend, is_none, is_value}

-- Documented behaviour of SET with NX and EX and of a script that runs GET and DEL.
pub record IsRedis {W : Type 0} (client : Redis W) (view : W → String → Option String)
    : Type 0 where
  pub set_answers :
      (k v : String) (t : ℕ) (w : W)
      → (client.set k v t true w).0 ≡ ok (if is_none (view w k) then some true else none)
  pub set_stores :
      (k v : String) (t : ℕ) (w : W) (asked : String)
      → view (client.set k v t true w).1 asked
        ≡ (if is_none (view w k) && (k == asked) then some v else view w asked)
  pub script_answers :
      (k v : String) (w : W)
      → (client.eval delete_script 1 k v w).0 ≡ ok (if is_value v (view w k) then 1 else 0)
  pub script_deletes :
      (k v : String) (w : W) (asked : String)
      → view (client.eval delete_script 1 k v w).1 asked
        ≡ (if is_value v (view w k) && (k == asked) then none else view w asked)

module _ {W : Type 0} (client : Redis W) (view : W → String → Option String)
    (laws : IsRedis client view) where
  set_nx_ex_lem :
      (k v : String) (t : ℕ) (w : W)
      → set_nx_ex client k v t w ≡ (ok (is_none (view w k)), (client.set k v t true w).1)
  unfolding set_nx_ex pure ◌>>=◌
  set_nx_ex_lem k v t w =
      rw (returned (client.set k v t true w) (laws.set_answers k v t w)) (by_answer (view w k))
    where
      by_answer :
          (o : Option String)
          → proceed
              (λ a. pure (is_true a))
              (ok (if is_none o then some true else none), (client.set k v t true w).1)
            ≡ (ok (is_none o), (client.set k v t true w).1)
      by_answer none = refl
      by_answer (some _) = refl

  delete_if_value_lem :
      (k v : String) (w : W)
      → delete_if_value client k v w
        ≡ (ok (is_value v (view w k)), (client.eval delete_script 1 k v w).1)
  unfolding delete_if_value pure ◌>>=◌
  delete_if_value_lem k v w =
      rw (returned (client.eval delete_script 1 k v w) (laws.script_answers k v w))
        (by_answer (is_value v (view w k)))
    where
      by_answer :
          (b : Bool)
          → proceed
              (λ n. pure (is_positive n))
              (ok (if b then 1 else 0), (client.eval delete_script 1 k v w).1)
            ≡ (ok b, (client.eval delete_script 1 k v w).1)
      by_answer true = refl
      by_answer false = refl

  -- Over commands that behave as documented, the Redis client is a backend as the lock needs it: a key
  -- is set only if it is free, and deleted only if it has the caller's token.
  pub redis_lock_backend-IsLockBackend : IsLockBackend (redis_lock_backend client) view
  redis_lock_backend-IsLockBackend = record {
    set_if_free = λ k v t w. ap (λ (r : Result Bool × W). r.0) (set_nx_ex_lem k v t w);
    set_view = λ k v t w asked.
        ap (λ (r : Result Bool × W). view r.1 asked) (set_nx_ex_lem k v t w)
        ∙ laws.set_stores k v t w asked;
    delete_if_same = λ k v w. ap (λ (r : Result Bool × W). r.0) (delete_if_value_lem k v w);
    delete_view = λ k v w asked.
        ap (λ (r : Result Bool × W). view r.1 asked) (delete_if_value_lem k v w)
        ∙ laws.script_deletes k v w asked;
  }
