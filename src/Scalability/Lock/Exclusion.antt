-- ===== src/Scalability/Lock/Exclusion.antt =====
-- Nodes that share a lock backend: what one holds, the others neither get nor take away.
use ai_risk_engine.Exec.{Result, ok}
use ai_risk_engine.Prelude.{
  ℕ, ◌≡◌, ◌≢◌, refl, sym, ap, ◌∙◌, inl, inr, Bool, true, false, ◌&&◌, Bool-cases, String, Option,
  none, some, Table, lookup, arith, if◌then◌else◌, ◌==◌, eq_iff,
}
use ai_risk_engine.Scalability.Lock.Backend.{IsLockBackend, is_none, is_value, same_other}
use ai_risk_engine.Scalability.Lock.{RedisLockBackend, full_key, acquire}
use ai_risk_engine.Scalability.Lock.Nodes.{
  System, start, IsFresh, acquire_at, release_at, acquires, releases, expires, Reach, here, next,
  Holds,
}
use ai_risk_engine.Scalability.Lock.Calls.{
  key_view, after_release, acquire_lem, release_lem, tokens_acquired, tokens_released,
  entry_acquired, entry_released,
}

module _ {W : Type 0} (backend : RedisLockBackend W) (prefix : String)
    (view : W → String → Option String) where
  -- No token stands in two nodes, and a token that is yet to be drawn in none.
  record IsOwned (x : System W) : Type 0 where
    unused :
        (token : String)
        → IsFresh token x.drawn
        → (i : ℕ) (k : String) → lookup k (x.nodes i) ≢ some token
    owner :
        (i j : ℕ) (k l t : String)
        → lookup k (x.nodes i) ≡ some t
        → lookup l (x.nodes j) ≡ some t
        → i ≡ j

  module _ (laws : IsLockBackend backend view) where
    IsOwned-acquire :
        (i : ℕ) (token key : String) (ttl : ℕ) (x : System W)
        → IsFresh token x.drawn
        → IsOwned x
        → IsOwned (acquire_at backend prefix view i token key ttl x)
    IsOwned-acquire i token key ttl x fresh h = record {
      unused = λ u is_fresh j k there.
          elim (entry_acquired backend prefix view laws i j token key ttl k u x there) [
            | inl (_, is_token) ↦ is_fresh.0 (sym is_token)
            | inr old ↦ h.unused u is_fresh.1 j k old
          ];
      owner = λ j₁ j₂ k l t at_j₁ at_j₂.
          elim (entry_acquired backend prefix view laws i j₁ token key ttl k t x at_j₁) [
            | inl (j₁_is_i, t_new) ↦
                elim (entry_acquired backend prefix view laws i j₂ token key ttl l t x at_j₂) [
                  | inl (j₂_is_i, _) ↦ j₁_is_i ∙ sym j₂_is_i
                  | inr old ↦ absurd (h.unused token fresh j₂ l (old ∙ ap some t_new))
                ]
            | inr old₁ ↦
                elim (entry_acquired backend prefix view laws i j₂ token key ttl l t x at_j₂) [
                  | inl (_, t_new) ↦ absurd (h.unused token fresh j₁ k (old₁ ∙ ap some t_new))
                  | inr old₂ ↦ h.owner j₁ j₂ k l t old₁ old₂
                ]
          ];
    }

    IsOwned-release :
        (i : ℕ) (key : String) (x : System W)
        → IsOwned x
        → IsOwned (release_at backend prefix view i key x)
    IsOwned-release i key x h = record {
      unused = λ u is_fresh j k there.
          h.unused u is_fresh j k (entry_released backend prefix view laws i j key k u x there);
      owner = λ j₁ j₂ k l t at_j₁ at_j₂.
          h.owner j₁ j₂ k l t (entry_released backend prefix view laws i j₁ key k t x at_j₁)
            (entry_released backend prefix view laws i j₂ key l t x at_j₂);
    }

    Reach-IsOwned : {x y : System W} → Reach backend prefix view x y → IsOwned x → IsOwned y
    Reach-IsOwned here h = h
    Reach-IsOwned (next {y} r (acquires i token key ttl fresh e)) h =
        rw e (IsOwned-acquire i token key ttl y fresh (Reach-IsOwned r h))
    Reach-IsOwned (next {y} r (releases i key e)) h =
        rw e (IsOwned-release i key y (Reach-IsOwned r h))
    Reach-IsOwned (next {y} r (expires w old e)) h =
        let owned = Reach-IsOwned r h in
        rw e (record { unused = owned.unused; owner = owned.owner })

    start-IsOwned : (w : W) → IsOwned (start w)
    unfolding lookup
    start-IsOwned w = record {
      unused = λ token fresh i k there. absurd (ground (arith, there));
      owner = λ i j k l t there also. absurd (ground (arith, there));
    }

    Holds-acquire :
        (i j : ℕ) (token key k : String) (ttl : ℕ) (x : System W)
        → j ≢ i
        → Holds backend prefix view x i key
        → Holds backend prefix view (acquire_at backend prefix view j token k ttl x) i key
    Holds-acquire i j token key k ttl x other (t, mine, stored) = (
      t,
      tokens_acquired backend prefix view laws j i token k ttl key x
          ∙ rw (same_other i j other) mine,
      ap (λ (r : Result Bool × (Table String × W)). view r.1.1 (full_key backend prefix key))
            (acquire_lem backend prefix view laws token k ttl (x.nodes j) x.world)
          ∙ laws.set_view (full_key backend prefix k) token ttl x.world
              (full_key backend prefix key)
          ∙ kept (full_key backend prefix k == full_key backend prefix key) refl,
    )
      where
        kept :
            (b : Bool)
            → (full_key backend prefix k == full_key backend prefix key) ≡ b
            → (if is_none (key_view backend prefix view laws x.world k) && b
                then some token
                else key_view backend prefix view laws x.world key)
              ≡ some t
        kept true e =
            let here_too =
              ap (view x.world)
                ((eq_iff (full_key backend prefix k) (full_key backend prefix key)).0 e)
              ∙ stored in
            rw here_too stored
        kept false e = ground (arith, stored)

    Holds-release :
        (i j : ℕ) (key k : String) (x : System W)
        → IsOwned x
        → j ≢ i
        → Holds backend prefix view x i key
        → Holds backend prefix view (release_at backend prefix view j k x) i key
    Holds-release i j key k x owned other (t, mine, stored) = (
      t,
      tokens_released backend prefix view laws j i k key x ∙ rw (same_other i j other) mine,
      ap (λ (r : Table String × W). view r.1 (full_key backend prefix key))
            (release_lem backend prefix view laws k (x.nodes j) x.world)
          ∙ kept (lookup k (x.nodes j)) refl,
    )
      where
        kept :
            (o : Option String)
            → lookup k (x.nodes j) ≡ o
            → view
                (after_release backend prefix view laws k o x.world)
                (full_key backend prefix key)
              ≡ some t
        kept none e = stored
        kept (some u) e =
            laws.delete_view (full_key backend prefix k) u x.world (full_key backend prefix key)
            ∙ not_deleted (full_key backend prefix k == full_key backend prefix key) refl
          where
            not_deleted :
                (b : Bool)
                → (full_key backend prefix k == full_key backend prefix key) ≡ b
                → (if is_value u (key_view backend prefix view laws x.world k) && b
                    then none
                    else key_view backend prefix view laws x.world key)
                  ≡ some t
            not_deleted true same_key =
                let here_too =
                  ap (view x.world)
                    ((eq_iff (full_key backend prefix k) (full_key backend prefix key)).0 same_key)
                  ∙ stored in
                rw (here_too, not_same) stored
              where
                not_same : (t == u) ≡ false
                not_same = elim (Bool-cases (t == u)) [
                  | inl equal ↦
                      absurd
                        (other (owned.owner j i k key u e (mine ∙ ap some ((eq_iff t u).0 equal))))
                  | inr differ ↦ differ
                ]
            not_deleted false same_key = ground (arith, stored)

    -- As long as the key of a node has not expired or been released by it, the lock is its own: in
    -- every state that nodes reach from one without locks, by any calls of `acquire` and `release` and
    -- by expiries in any order, with tokens that `uuid4` never draws twice, another node that tries to
    -- acquire the key gets False, and neither this nor any other call of `acquire` or `release` by
    -- another node, on this or another key, takes the lock away.
    pub holder_excludes :
        (w : W) (x : System W) (i j : ℕ) (token key k : String) (ttl : ℕ)
        → Reach backend prefix view (start w) x
        → Holds backend prefix view x i key
        → j ≢ i
        → ((acquire backend prefix token key ttl (x.nodes j, x.world)).0 ≡ ok false)
          × Holds backend prefix view (acquire_at backend prefix view j token k ttl x) i key
          × Holds backend prefix view (release_at backend prefix view j k x) i key
    holder_excludes w x i j token key k ttl r holds other = (
      ap (λ (r : Result Bool × (Table String × W)). r.0)
            (acquire_lem backend prefix view laws token key ttl (x.nodes j) x.world)
          ∙ rw holds.2 refl,
      Holds-acquire i j token key k ttl x other holds,
      Holds-release i j key k x (Reach-IsOwned r (start-IsOwned w)) other holds,
    )
