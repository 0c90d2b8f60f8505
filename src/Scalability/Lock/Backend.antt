-- ===== src/Scalability/Lock/Backend.antt =====
-- What is known of the backend of a lock, and the dictionaries of several nodes.
use ai_risk_engine.Exec.{ok}
use ai_risk_engine.Prelude.{
  ℕ, ◌≡◌, ◌≢◌, sym, inl, inr, Bool, true, false, ◌&&◌, Bool-cases, String, Option, none, some,
  Table, leb, arith, if◌then◌else◌, ◌==◌,
}
use ai_risk_engine.Scalability.Lock.{RedisLockBackend}

abbrev pub is_none : Option String → Bool
is_none none = true
is_none (some v) = false

abbrev pub is_value : String → Option String → Bool
is_value v none = false
is_value v (some u) = u == v

-- Documented behaviour of SET NX EX and of the compare-and-delete script: `view` is what is stored
-- and has not expired.
pub record IsLockBackend {W : Type 0} (backend : RedisLockBackend W)
    (view : W → String → Option String) : Type 0 where
  pub set_if_free :
      (k v : String) (t : ℕ) (w : W) → (backend.set_nx_ex k v t w).0 ≡ ok (is_none (view w k))
  pub set_view :
      (k v : String) (t : ℕ) (w : W) (asked : String)
      → view (backend.set_nx_ex k v t w).1 asked
        ≡ (if is_none (view w k) && (k == asked) then some v else view w asked)
  pub delete_if_same :
      (k v : String) (w : W) → (backend.delete_if_value k v w).0 ≡ ok (is_value v (view w k))
  pub delete_view :
      (k v : String) (w : W) (asked : String)
      → view (backend.delete_if_value k v w).1 asked
        ≡ (if is_value v (view w k) && (k == asked) then none else view w asked)

abbrev pub same : ℕ → ℕ → Bool
same j i = leb j i && leb i j

pub same_eq : (j i : ℕ) → same j i ≡ true → j ≡ i
same_eq j i h = ground arith

pub same_other : (j i : ℕ) → i ≢ j → same j i ≡ false
same_other j i other = elim (Bool-cases (same j i)) [
  | inl is_i ↦ absurd (other (sym (same_eq j i is_i)))
  | inr differ ↦ differ
]

abbrev pub set_node : ℕ → Table String → (ℕ → Table String) → ℕ → Table String
set_node i tokens nodes j = if same j i then tokens else nodes j
