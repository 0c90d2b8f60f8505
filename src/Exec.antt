-- ===== src/Exec.antt =====
-- Coroutines of the program as state-passing actions that may raise: what was done before a raise
-- stays done, so the state comes back beside the exception too.
pub mod Keeps
pub mod Triple
use ai_risk_engine.Errors.{Error, ErrorClass}
use ai_risk_engine.Prelude.{
  arith, ◌≡◌, refl, ◌⊎◌, inl, inr, Bool, true, false, String, Option, none, some, if◌then◌else◌,
}

pub data Result {ℓ} (A : Type ℓ) : Type ℓ where
  ok : A → Result A
  err : Error → Result A

pub Result-cases {ℓ} :
    {A : Type ℓ} (r : Result A) → ((a : A) × (r ≡ ok a)) ⊎ ((e : Error) × (r ≡ err e))
Result-cases (ok a) = inl (a, refl)
Result-cases (err e) = inr (e, refl)

-- Two checks in a row, of which the first to raise ends the function.
infixr 20 ◌and_then◌
abbrev pub ◌and_then◌ : Result (Unit {0}) → Result (Unit {0}) → Result (Unit {0})
ok _ and_then r = r
err e and_then r = err e

-- `if guard: raise C(message)`, in a function with no effects.
abbrev pub fail_if : Bool → ErrorClass → String → Result (Unit {0})
fail_if b c m = if b then err (record { cls = c; message = m }) else ok tt

abbrev pub Exec {ℓ} : Type ℓ → Type ℓ → Type ℓ
Exec S A = S → Result A × S

pub returned {ℓ} : {S A : Type ℓ} (r : Result A × S) {a : A} → r.0 ≡ ok a → r ≡ (ok a, r.1)
returned r e = λ i. (e i, r.1)

module _ {ℓ} {S A : Type ℓ} where
  unfoldable pub pure : A → Exec S A
  pure a s = (ok a, s)

  unfoldable pub throw : Error → Exec S A
  throw e s = (err e, s)

  unfoldable pub lift : Result A → Exec S A
  lift r s = (r, s)

module _ {ℓ} {S A B : Type ℓ} where
  abbrev pub proceed : (A → Exec S B) → Result A × S → Result B × S
  proceed f (ok a, s) = f a s
  proceed f (err e, s) = (err e, s)

  infixl 10 ◌>>=◌ ◌>>◌
  unfoldable pub ◌>>=◌ : Exec S A → (A → Exec S B) → Exec S B
  ◌>>=◌ m f s = proceed f (m s)

  abbrev pub ◌>>◌ : Exec S A → Exec S B → Exec S B
  m >> n = m >>= λ _. n

module _ {ℓ} {S A : Type ℓ} where
  abbrev pub recover : (Error → Exec S A) → Result A × S → Result A × S
  recover h (ok a, s) = (ok a, s)
  recover h (err e, s) = h e s

  -- `try: m` with a handler for every `Exception`.
  unfoldable pub catch : Exec S A → (Error → Exec S A) → Exec S A
  catch m h s = recover h (m s)

-- A sequence that returned ran through its first action.
pub proceed-eq-ok {ℓ} :
    {S A B : Type ℓ} (f : A → Exec S B) (r : Result A × S) {b : B}
    → (proceed f r).0 ≡ ok b
    → (a : A) × (s : S) × (r ≡ (ok a, s)) × ((f a s).0 ≡ ok b)
proceed-eq-ok f (ok a, s) h = (a, s, refl, h)
proceed-eq-ok f (err e, s) h = absurd (ground arith)

-- `raise C(message)`
unfoldable pub raise {ℓ} : {S A : Type ℓ} → ErrorClass → String → Exec S A
unfolding throw
raise c m = throw (record { cls = c; message = m })

-- `if guard: raise C(message)`
unfoldable pub raise_if : {S : Type 0} → Bool → ErrorClass → String → Exec S (Unit {0})
unfolding pure raise
raise_if b c m = if b then raise c m else pure tt

-- A call on a collaborator that may be absent: `if self._x: self._x.call(…)`.
unfoldable pub when_some : {S K : Type 0} → Option K → (K → Exec S (Unit {0})) → Exec S (Unit {0})
unfolding pure
when_some none f = pure tt
when_some (some k) f = f k

-- `try: m finally: f`, also the exit of an `async with`: what `f` raises takes the place of what
-- `m` did.
module _ {ℓ} {S A : Type ℓ} where
  abbrev pub after_final : Result A → Result (Unit {0}) × S → Result A × S
  after_final r (ok _, s) = (r, s)
  after_final r (err e, s) = (err e, s)

  abbrev pub run_final : (S → Result (Unit {0}) × S) → Result A × S → Result A × S
  run_final f (r, s) = after_final r (f s)

  unfoldable pub finally : (S → Result A × S) → (S → Result (Unit {0}) × S) → S → Result A × S
  finally m f s = run_final f (m s)
