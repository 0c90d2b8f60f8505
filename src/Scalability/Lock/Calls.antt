-- ===== src/Scalability/Lock/Calls.antt =====
-- What one call of a lock does to the tokens of every node that shares its backend.
use ai_risk_engine.Exec.{ok, pure, proceed, returned, ◌>>=◌}
use ai_risk_engine.Prelude.{
  ℕ, ◌≡◌, refl, ◌⊎◌, inl, inr, Bool, true, false, ◌&&◌, Bool-cases, String, Option, none, some,
  Table, lookup, insert, lookup-insert, remove, lookup-remove, arith, if◌then◌else◌, ◌==◌,
}
use ai_risk_engine.Scalability.Lock.Backend.{IsLockBackend, is_none, same, same_eq}
use ai_risk_engine.Scalability.Lock.{
  RedisLockBackend, on_backend, set_tokens, get_tokens, full_key, acquire, delete_token, release,
}
use ai_risk_engine.Scalability.Lock.Nodes.{System, acquire_at, release_at}

module _ {W : Type 0} (backend : RedisLockBackend W) (prefix : String)
    (view : W → String → Option String) where
  module _ (laws : IsLockBackend backend view) where
    abbrev pub key_view : W → String → Option String
    key_view w key = view w (full_key backend prefix key)

    pub acquire_lem :
        (token key : String) (ttl : ℕ) (tokens : Table String) (w : W)
        → acquire backend prefix token key ttl (tokens, w) ≡ (
          ok (is_none (key_view w key)),
          (
            (if is_none (key_view w key) then insert key token tokens else tokens),
            (backend.set_nx_ex (full_key backend prefix key) token ttl w).1,
          ),
        )
    unfolding acquire pure ◌>>=◌ on_backend set_tokens
    acquire_lem token key ttl tokens w =
        let fk = full_key backend prefix key in
        rw (returned (backend.set_nx_ex fk token ttl w) (laws.set_if_free fk token ttl w))
          (by_answer (is_none (key_view w key)))
      where
        by_answer :
            (free : Bool)
            → proceed
                (λ _. pure free)
                ((if free then set_tokens (insert key token) else pure tt)
                  (tokens, (backend.set_nx_ex (full_key backend prefix key) token ttl w).1))
              ≡ (
                ok free,
                (
                  (if free then insert key token tokens else tokens),
                  (backend.set_nx_ex (full_key backend prefix key) token ttl w).1,
                ),
              )
        by_answer true = refl
        by_answer false = refl

    abbrev pub after_release : String → Option String → W → W
    after_release key none w = w
    after_release key (some token) w =
        (backend.delete_if_value (full_key backend prefix key) token w).1

    pub release_lem :
        (key : String) (tokens : Table String) (w : W)
        → (release backend prefix key (tokens, w)).1
          ≡ (remove key tokens, after_release key (lookup key tokens) w)
    unfolding release pure ◌>>=◌ on_backend set_tokens get_tokens delete_token
    release_lem key tokens w = by_token (lookup key tokens)
      where
        by_token :
            (o : Option String)
            → (delete_token backend prefix key o (remove key tokens, w)).1
              ≡ (remove key tokens, after_release key o w)
        by_token none = refl
        by_token (some token) =
            let fk = full_key backend prefix key in
            rw (returned (backend.delete_if_value fk token w) (laws.delete_if_same fk token w)) refl

    -- The tokens of a node after a call of the node `i`.
    pub tokens_acquired :
        (i j : ℕ) (token key : String) (ttl : ℕ) (k : String) (x : System W)
        → lookup k ((acquire_at backend prefix view i token key ttl x).nodes j) ≡ (
            if same j i && (is_none (key_view x.world key) && (key == k))
            then some token
            else lookup k (x.nodes j))
    tokens_acquired i j token key ttl k x =
        rw (acquire_lem token key ttl (x.nodes i) x.world) (elim (Bool-cases (same j i)) [
          | inl is_i ↦ rw (is_i, same_eq j i is_i) (by_free (is_none (key_view x.world key)))
          | inr other ↦ rw other refl
        ])
      where
        by_free :
            (free : Bool)
            → lookup k (if free then insert key token (x.nodes i) else x.nodes i)
              ≡ (if free && (key == k) then some token else lookup k (x.nodes i))
        by_free true = lookup-insert (x.nodes i) k key token
        by_free false = refl

    pub tokens_released :
        (i j : ℕ) (key k : String) (x : System W)
        → lookup k ((release_at backend prefix view i key x).nodes j)
          ≡ (if same j i && (key == k) then none else lookup k (x.nodes j))
    tokens_released i j key k x =
        rw (release_lem key (x.nodes i) x.world) (elim (Bool-cases (same j i)) [
          | inl is_i ↦ rw (is_i, same_eq j i is_i) (lookup-remove k key (x.nodes i))
          | inr other ↦ rw other refl
        ])

    -- An entry of a changed dictionary is the new one, of node `i`, or an old one.
    pub entry_acquired :
        (i j : ℕ) (token key : String) (ttl : ℕ) (k t : String) (x : System W)
        → lookup k ((acquire_at backend prefix view i token key ttl x).nodes j) ≡ some t
        → ((j ≡ i) × (t ≡ token)) ⊎ (lookup k (x.nodes j) ≡ some t)
    entry_acquired i j token key ttl k t x h =
        ground (arith, h, tokens_acquired i j token key ttl k x, same_eq j i)

    pub entry_released :
        (i j : ℕ) (key k t : String) (x : System W)
        → lookup k ((release_at backend prefix view i key x).nodes j) ≡ some t
        → lookup k (x.nodes j) ≡ some t
    entry_released i j key k t x h = ground (arith, h, tokens_released i j key k x)
