-- ===== src/Infrastructure/RedisClient/Window.antt =====
-- `rate_limit` within one window: how many calls are allowed.
use ai_risk_engine.Exec.{Exec, Result, ok, pure, returned, ◌>>=◌, ◌>>◌}
use ai_risk_engine.Infrastructure.RedisClient.{Redis, start_window, rate_limit}
use ai_risk_engine.Prelude.{
  ℕ, zero, suc, ◌+◌, ◌-◌, ◌≡◌, refl, ap, ◌∙◌, Bool, true, false, String, leb, arith, if◌then◌else◌,
  ◌&&◌,
}

-- Documented behaviour of INCR and EXPIRE on a key whose number has not expired; a positive number of
-- seconds leaves the number alone.
pub record IsCounter {W : Type 0} (client : Redis W) (count : W → String → ℕ) : Type 0 where
  pub incr_answers : (k : String) (w : W) → (client.incr k w).0 ≡ ok (suc (count w k))
  pub incr_counts : (k : String) (w : W) → count (client.incr k w).1 k ≡ suc (count w k)
  pub expire_answers :
      (k : String) (s : ℕ) (w : W) → leb 1 (count w k) ≡ true → (client.expire k s w).0 ≡ ok true
  pub expire_keeps :
      (k : String) (s : ℕ) (w : W) → leb 1 s ≡ true → count (client.expire k s w).1 k ≡ count w k

module _ {W : Type 0} (client : Redis W) (key : String) (limit window : ℕ) where
  -- Calls of `rate_limit` in a row, and how many of them are allowed.
  unfoldable pub call_all : ℕ → Exec W ℕ
  unfolding pure ◌>>=◌
  call_all zero = pure 0
  call_all (suc n) = do
    allowed ← rate_limit client key limit window
    more ← call_all n
    pure (if allowed then suc more else more)

  module _ (count : W → String → ℕ) (laws : IsCounter client count)
      (lasts : leb 1 window ≡ true) where
    start_window_lem :
        (current : ℕ) (w : W)
        → leb 1 (count w key) ≡ true
        → (w' : W) × (start_window client key window current w ≡ (ok tt, w'))
          × (count w' key ≡ count w key)
    unfolding start_window pure ◌>>=◌
    start_window_lem current w there = by_first (leb 1 current && leb current 1)
      where
        by_first :
            (first : Bool)
            → (w' : W) × ((if first then (do client.expire key window; pure tt) else pure tt) w
                ≡ (ok tt, w'))
              × (count w' key ≡ count w key)
        by_first true = (
          (client.expire key window w).1,
          rw (returned (client.expire key window w) (laws.expire_answers key window w there)) refl,
          laws.expire_keeps key window w lasts,
        )
        by_first false = (w, refl, refl)

    rate_limit_lem :
        (w : W)
        → (w' : W) × (rate_limit client key limit window w
            ≡ (ok (leb (suc (count w key)) limit), w'))
          × (count w' key ≡ suc (count w key))
    unfolding rate_limit pure ◌>>=◌
    rate_limit_lem w =
        let (w', runs, kept) =
          start_window_lem (suc (count w key)) (client.incr key w).1
            (ap (leb 1) (laws.incr_counts key w) ∙ ground arith) in
        (
          w',
          rw (returned (client.incr key w) (laws.incr_answers key w), runs) refl,
          kept ∙ laws.incr_counts key w,
        )

    abbrev permitted : ℕ → ℕ → ℕ
    permitted n used = if leb (n + used) limit then n else limit - used

    call_all_from :
        (n : ℕ) (w : W) → (w' : W) × (call_all n w ≡ (ok (permitted n (count w key)), w'))
    unfolding call_all pure ◌>>=◌
    call_all_from zero w = (w, ap (λ m. (ok m, w)) (ground arith))
    call_all_from (suc n) w =
        let (w₁, called, counted) = rate_limit_lem w in
        let (w₂, rest) = call_all_from n w₁ in
        (w₂, rw (called, rest, counted) (ap (λ m. (ok m, w₂)) (ground arith)))

    -- While its key does not expire, `rate_limit` allows as many of the calls in a row from an unused
    -- key as the limit says, and no others.
    pub rate_limit_allows :
        (n : ℕ) (w : W) → count w key ≡ 0 → (call_all n w).0 ≡ ok (if leb n limit then n else limit)
    rate_limit_allows n w unused =
        ap (λ (r : Result ℕ × W). r.0) (call_all_from n w).1 ∙ ap ok (ground (arith, unused))
