-- ===== src/Scalability/Lock.antt =====
-- app/scalability/distributed_lock.py: one `DistributedLock` per node, all over one backend. What an
-- object keeps is its dictionary of tokens, which stands beside the world of the backend; `uuid4` is
-- the argument `token` of `acquire`.
pub mod Backend
pub mod Calls
pub mod Exclusion
pub mod Nodes
use Prim.Native.String.{◌++◌}
use ai_risk_engine.Exec.{Exec, Result, ok, pure, ◌>>=◌, ◌>>◌}
use ai_risk_engine.Prelude.{
  ℕ, Bool, String, Option, none, some, [], ◌∷◌, Table, lookup, insert, remove, if◌then◌else◌, ◌==◌,
}

-- The protocol `RedisLockBackend`.
pub record RedisLockBackend (W : Type 0) : Type 0 where
  pub set_nx_ex : String → String → ℕ → Exec W Bool
  pub get : String → Exec W (Option String)
  pub delete_if_value : String → String → Exec W Bool

-- `LOCK_PREFIX`
abbrev pub lock_prefix : String
lock_prefix = "lock:"

-- A call of the backend, which leaves the tokens alone.
unfoldable pub on_backend : {W A : Type 0} → Exec W A → Exec (Table String × W) A
on_backend call (tokens, w) = let (r, w') = call w in (r, (tokens, w'))

unfoldable pub set_tokens :
    {W : Type 0} → (Table String → Table String) → Exec (Table String × W) (Unit {0})
set_tokens change (tokens, w) = (ok tt, (change tokens, w))

unfoldable pub get_tokens : {W : Type 0} → Exec (Table String × W) (Table String)
get_tokens (tokens, w) = (ok tokens, (tokens, w))

module _ {W : Type 0} (backend : RedisLockBackend W) (prefix : String) where
  -- `_key`
  unfoldable pub full_key : String → String
  full_key key = prefix ++ key

  unfoldable pub acquire : String → String → ℕ → Exec (Table String × W) Bool
  unfolding pure ◌>>=◌ full_key on_backend set_tokens
  acquire token key ttl = do
    acquired ← on_backend (backend.set_nx_ex (full_key key) token ttl)
    if acquired then set_tokens (insert key token) else pure tt
    pure acquired

  -- `if token is not None: await self._backend.delete_if_value(full_key, token)`
  unfoldable pub delete_token : String → Option String → Exec (Table String × W) (Unit {0})
  unfolding pure ◌>>=◌ full_key on_backend
  delete_token key none = pure tt
  delete_token key (some token) = do
    on_backend (backend.delete_if_value (full_key key) token)
    pure tt

  unfoldable pub release : String → Exec (Table String × W) (Unit {0})
  unfolding pure ◌>>=◌ full_key get_tokens set_tokens
  release key = do
    tokens ← get_tokens
    set_tokens (remove key)
    delete_token key (lookup key tokens)
