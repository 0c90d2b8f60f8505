-- ===== src/Application/RedisRepository/Tenants.antt =====
-- Which tenants share keys of the event store.
use Prim.Native.Char.{code}
use Prim.Native.String.{◌++◌}
use text.Mathlib.TextLemmas.{
  nil-append, cons-append, append_assoc, head-eq_of_cons-eq, tail-eq_of_cons-eq, append_cancel_left,
}
use ai_risk_engine.Application.RedisRepository.{event_key}
use ai_risk_engine.Prelude.{
  ◌≡◌, ◌≢◌, refl, sym, ap, ◌∙◌, inl, inr, Bool, false, ◌&&◌, ◌||◌, Bool-cases, String, leb, arith,
  ◌==◌, eq_iff,
}

abbrev pub has_colon : String → Bool
has_colon String.[] = false
has_colon (String.◌∷◌ c s) = leb b':' (code c) && leb (code c) b':' || has_colon s

-- What stands before the first colon is determined.
before_colon :
    (a b x y : String)
    → has_colon a ≡ false
    → has_colon b ≡ false
    → a ++ (":" ++ x) ≡ b ++ (":" ++ y)
    → a ≡ b
before_colon String.[] String.[] x y ha hb e = refl
before_colon String.[] (String.◌∷◌ c b) x y ha hb e = absurd (
    ground (
      arith,
      ap code (
          head-eq_of_cons-eq (
            sym (cons-append _ "" x)
            ∙ sym (nil-append (":" ++ x))
            ∙ e
            ∙ cons-append c b (":" ++ y))),
    ))
before_colon (String.◌∷◌ c a) String.[] x y ha hb e = absurd (
    ground (
      arith,
      ap code (
          head-eq_of_cons-eq (
            sym (cons-append _ "" y)
            ∙ sym (nil-append (":" ++ y))
            ∙ sym e
            ∙ cons-append c a (":" ++ x))),
    ))
before_colon (String.◌∷◌ c a) (String.◌∷◌ d b) x y ha hb e =
    let same = sym (cons-append c a (":" ++ x)) ∙ e ∙ cons-append d b (":" ++ y) in
    let tails =
      before_colon a b x y (ground (arith, ha)) (ground (arith, hb)) (tail-eq_of_cons-eq same) in
    λ i. String.◌∷◌ (head-eq_of_cons-eq same i) (tails i)

-- Tenants without a colon in their names share no key.
pub event_keys_differ :
    (a b x y : String)
    → has_colon a ≡ false
    → has_colon b ≡ false
    → a ≢ b
    → (event_key a x == event_key b y) ≡ false
unfolding event_key
event_keys_differ a b x y ha hb other = elim (Bool-cases (event_key a x == event_key b y)) [
  | inl same ↦ absurd (
      other (
        before_colon a b x y ha hb (
          append_cancel_left "event:" (a ++ (":" ++ x)) (b ++ (":" ++ y))
            ((eq_iff (event_key a x) (event_key b y)).0 same))))
  | inr differ ↦ differ
]

-- A tenant whose name continues another's after a colon shares keys with it.
pub event_keys_collide :
    (a b x : String) → event_key (a ++ (":" ++ b)) x ≡ event_key a (b ++ (":" ++ x))
unfolding event_key
event_keys_collide a b x = simp (append_assoc)
