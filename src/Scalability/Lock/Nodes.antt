-- ===== src/Scalability/Lock/Nodes.antt =====
-- Nodes that share a lock backend: their states and the steps between them.
use ai_risk_engine.Prelude.{
  ℕ, ◌≡◌, ◌≢◌, ◌⊎◌, String, Option, none, some, List, [], ◌∷◌, All, Table, lookup,
}
use ai_risk_engine.Scalability.Lock.Backend.{set_node}
use ai_risk_engine.Scalability.Lock.{RedisLockBackend, full_key, acquire, release}

-- The dictionaries of the nodes, the backend, and the tokens that `uuid4` has drawn.
pub record System (W : Type 0) : Type 0 where
  pub nodes : ℕ → Table String
  pub world : W
  pub drawn : List String

-- Nodes that have not locked anything yet.
abbrev pub start : {W : Type 0} → W → System W
start w = record { nodes = λ i. []; world = w; drawn = [] }

abbrev pub IsFresh : String → List String → Type 0
IsFresh token drawn = All (λ t. t ≢ token) drawn

module _ {W : Type 0} (backend : RedisLockBackend W) (prefix : String)
    (view : W → String → Option String) where
  -- The node `i` calls `acquire`, for which `uuid4` draws the token, or `release`.
  abbrev pub acquire_at : ℕ → String → String → ℕ → System W → System W
  acquire_at i token key ttl x =
      let (tokens, w) = (acquire backend prefix token key ttl (x.nodes i, x.world)).1 in
      record { nodes = set_node i tokens x.nodes; world = w; drawn = token ∷ x.drawn }

  abbrev pub release_at : ℕ → String → System W → System W
  release_at i key x =
      let (tokens, w) = (release backend prefix key (x.nodes i, x.world)).1 in
      record x { nodes = set_node i tokens x.nodes; world = w }

  pub data Step (x y : System W) : Type 0 where
    acquires :
        (i : ℕ) (token key : String) (ttl : ℕ)
        → IsFresh token x.drawn
        → y ≡ acquire_at i token key ttl x
        → Step x y
    releases : (i : ℕ) (key : String) → y ≡ release_at i key x → Step x y
    expires :
        (w : W)
        → ((k : String) → (view w k ≡ view x.world k) ⊎ (view w k ≡ none))
        → y ≡ record x { world = w }
        → Step x y

  pub data Reach (x : System W) : System W → Type 0 where
    here : Reach x x
    next : {y z : System W} → Reach x y → Step y z → Reach x z

  -- The node has a token for the key, and the backend has it too.
  abbrev pub Holds : System W → ℕ → String → Type 0
  Holds x i key =
      (t : String) × (lookup key (x.nodes i) ≡ some t)
      × (view x.world (full_key backend prefix key) ≡ some t)
