-- ===== src/Tests/Locks.antt =====
-- The witness for the theorem on the distributed lock: two nodes over a dictionary.
use ai_risk_engine.Exec.{ok, pure, ◌>>=◌}
use ai_risk_engine.Prelude.{
  ◌≡◌, refl, Bool, true, false, ◌&&◌, String, Option, none, some, [], Table, lookup, insert,
  lookup-insert, remove, lookup-remove, arith, if◌then◌else◌, ◌==◌,
}
use ai_risk_engine.Scalability.Lock.{
  RedisLockBackend, full_key, acquire, on_backend, set_tokens, lock_prefix,
}
use ai_risk_engine.Scalability.Lock.Backend.{IsLockBackend, is_none, is_value}
use ai_risk_engine.Scalability.Lock.Exclusion.{holder_excludes}
use ai_risk_engine.Scalability.Lock.Nodes.{
  System, Reach, here, next, acquires, Holds, acquire_at, release_at, start,
}

abbrev locks : RedisLockBackend (Table String)
locks = record {
  set_nx_ex =
      λ k v t w. (ok (is_none (lookup k w)), if is_none (lookup k w) then insert k v w else w);
  get = λ k w. (ok (lookup k w), w);
  delete_if_value =
      λ k v w. (ok (is_value v (lookup k w)), if is_value v (lookup k w) then remove k w else w);
}

abbrev locked : Table String → String → Option String
locked w k = lookup k w

insert_if :
    (free : Bool) (k v asked : String) (w : Table String)
    → lookup asked (if free then insert k v w else w)
      ≡ (if free && (k == asked) then some v else lookup asked w)
insert_if true k v asked w = lookup-insert w asked k v
insert_if false k v asked w = refl

remove_if :
    (found : Bool) (k asked : String) (w : Table String)
    → lookup asked (if found then remove k w else w)
      ≡ (if found && (k == asked) then none else lookup asked w)
remove_if true k asked w = lookup-remove asked k w
remove_if false k asked w = refl

locks-IsLockBackend : IsLockBackend locks locked
locks-IsLockBackend = record {
  set_if_free = λ k v t w. refl;
  set_view = λ k v t w asked. insert_if (is_none (lookup k w)) k v asked w;
  delete_if_same = λ k v w. refl;
  delete_view = λ k v w asked. remove_if (is_value v (lookup k w)) k asked w;
}

-- The first node has locked the event.
abbrev taken : System (Table String)
taken = acquire_at locks lock_prefix locked 0 "token-0" "e1" 30 (start [])

taken_reached : Reach locks lock_prefix locked (start []) taken
taken_reached = next here (acquires 0 "token-0" "e1" 30 tt refl)

taken_held : Holds locks lock_prefix locked taken 0 "e1"
unfolding acquire on_backend set_tokens full_key lookup insert pure ◌>>=◌
taken_held = ("token-0", refl, refl)

holder_excludes_example :
    ((acquire locks lock_prefix "token-1" "e1" 30 (taken.nodes 1, taken.world)).0 ≡ ok false)
    × Holds locks lock_prefix locked
        (acquire_at locks lock_prefix locked 1 "token-1" "e2" 30 taken)
        0
        "e1"
    × Holds locks lock_prefix locked (release_at locks lock_prefix locked 1 "e2" taken) 0 "e1"
holder_excludes_example =
    holder_excludes locks lock_prefix locked locks-IsLockBackend [] taken 0 1 "token-1" "e1" "e2" 30
      taken_reached taken_held (λ h. absurd (omega (arith, h)))
