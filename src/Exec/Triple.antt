-- ===== src/Exec/Triple.antt =====
-- Specifications of actions by what holds before and after them, with one rule for each way to
-- build an action. `Q` speaks of a normal return and `E` of a raise.
use ai_risk_engine.Errors.{Error, ErrorClass}
use ai_risk_engine.Prelude.{
  ap, ◌≡◌, refl, Bool, true, false, String, Option, none, some, if◌then◌else◌,
}
use ai_risk_engine.Exec.{
  Exec, Result, ok, err, pure, throw, lift, raise, catch, recover, proceed, finally, run_final,
  after_final, when_some, ◌>>=◌,
}

abbrev pub Outcome {ℓ} :
    {S A : Type ℓ} → (A → S → Type ℓ) → (Error → S → Type ℓ) → Result A × S → Type ℓ
Outcome Q E (ok a, s) = Q a s
Outcome Q E (err e, s) = E e s

pub record Triple {ℓ} {S A : Type ℓ} (P : S → Type ℓ) (m : Exec S A) (Q : A → S → Type ℓ)
    (E : Error → S → Type ℓ) : Type ℓ where
  pub at : (s : S) → P s → Outcome Q E (m s)

module _ {ℓ} {S A : Type ℓ} {P : S → Type ℓ} {Q : A → S → Type ℓ} {E : Error → S → Type ℓ} where
  pub Triple-pure : (a : A) → ((s : S) → P s → Q a s) → Triple P (pure a) Q E
  unfolding pure
  Triple-pure a h = record { at = h }

  pub Triple-throw : (e : Error) → ((s : S) → P s → E e s) → Triple P (throw {A = A} e) Q E
  unfolding throw
  Triple-throw e h = record { at = h }

  pub Triple-raise :
      (c : ErrorClass) (m : String)
      → ((s : S) → P s → E (record { cls = c; message = m }) s)
      → Triple P (raise {A = A} c m) Q E
  unfolding raise
  Triple-raise c m h = record { at = h }

  pub Triple-if :
      (b : Bool) (m n : Exec S A)
      → (b ≡ true → Triple P m Q E)
      → (b ≡ false → Triple P n Q E)
      → Triple P (if b then m else n) Q E
  Triple-if true m n hm hn = hm refl
  Triple-if false m n hm hn = hn refl

  -- Weaker before, stronger after.
  pub Triple-weaken :
      {P' : S → Type ℓ} {Q' : A → S → Type ℓ} {m : Exec S A}
      → Triple P' m Q' E
      → ((s : S) → P s → P' s)
      → ((a : A) (s : S) → Q' a s → Q a s)
      → Triple P m Q E
  Triple-weaken {Q' = Q'} {m = m} t before after = record {
    at = λ s p. widen (m s) (t.at s (before s p));
  }
    where
      widen : (r : Result A × S) → Outcome Q' E r → Outcome Q E r
      widen (ok a, s) h = after a s h
      widen (err e, s) h = h

Outcome-proceed {ℓ} :
    {S A B : Type ℓ} {M : A → S → Type ℓ} {Q : B → S → Type ℓ} {E : Error → S → Type ℓ}
    (f : A → Exec S B) (r : Result A × S)
    → Outcome M E r
    → ((a : A) → Triple (M a) (f a) Q E)
    → Outcome Q E (proceed f r)
Outcome-proceed f (ok a, s) h k = (k a).at s h
Outcome-proceed f (err e, s) h k = h

pub Triple-bind {ℓ} :
    {S A B : Type ℓ} {P : S → Type ℓ} {M : A → S → Type ℓ} {Q : B → S → Type ℓ}
    {E : Error → S → Type ℓ} {m : Exec S A} {f : A → Exec S B}
    → Triple P m M E
    → ((a : A) → Triple (M a) (f a) Q E)
    → Triple P (m >>= f) Q E
unfolding ◌>>=◌
Triple-bind {M} {m} {f} t k = record { at = λ s p. Outcome-proceed {M = M} f (m s) (t.at s p) k }

Outcome-recover {ℓ} :
    {S A : Type ℓ} {Q : A → S → Type ℓ} {D E : Error → S → Type ℓ} (h : Error → Exec S A)
    (r : Result A × S)
    → Outcome Q D r
    → ((e : Error) → Triple (D e) (h e) Q E)
    → Outcome Q E (recover h r)
Outcome-recover h (ok a, s) q k = q
Outcome-recover h (err e, s) q k = (k e).at s q

pub Triple-catch {ℓ} :
    {S A : Type ℓ} {P : S → Type ℓ} {Q : A → S → Type ℓ} {D E : Error → S → Type ℓ} {m : Exec S A}
    {h : Error → Exec S A}
    → Triple P m Q D
    → ((e : Error) → Triple (D e) (h e) Q E)
    → Triple P (catch m h) Q E
unfolding catch
Triple-catch {D} {m} {h} t k = record { at = λ s p. Outcome-recover {D = D} h (m s) (t.at s p) k }

-- A check in the middle: what follows may use that it passed.
pub Triple-bind-lift {ℓ} :
    {S A B : Type ℓ} {P : S → Type ℓ} {Q : B → S → Type ℓ} {E : Error → S → Type ℓ} (r : Result A)
    (f : A → Exec S B)
    → ((e : Error) → r ≡ err e → (s : S) → P s → E e s)
    → ((a : A) → r ≡ ok a → Triple P (f a) Q E)
    → Triple P (lift r >>= f) Q E
unfolding ◌>>=◌ lift
Triple-bind-lift (ok a) f bad good = good a refl
Triple-bind-lift (err e) f bad good = record { at = bad e refl }

-- Of an action nothing is known; after it nothing is claimed.
pub Triple-any {ℓ} :
    {S A : Type ℓ} (m : Exec S A) → Triple (λ _. Unit) m (λ _ _. Unit) (λ _ _. Unit)
Triple-any {S} {A} m = record { at = λ s _. any_outcome (m s) }
  where
    any_outcome : (r : Result A × S) → Outcome (λ _ _. Unit) (λ _ _. Unit) r
    any_outcome (ok a, s) = tt
    any_outcome (err e, s) = tt

-- What holds before, and not of the state, may be used as a fact.
pub Triple-given {ℓ} :
    {S A : Type ℓ} {P : S → Type ℓ} {F : Type ℓ} {m : Exec S A} {Q : A → S → Type ℓ}
    {E : Error → S → Type ℓ}
    → (F → Triple P m Q E)
    → Triple (λ s. P s × F) m Q E
Triple-given t = record { at = λ s p. (t p.1).at s p.0 }

module _ {S A : Type 0} (Q : A → S → Type 0) (E : Error → S → Type 0) where
  final_ok :
      (a : A) (x : Result (Unit {0}) × S)
      → Outcome (λ _ s. Q a s) E x
      → Outcome Q E (after_final (ok a) x)
  final_ok a (ok _, s) h = h
  final_ok a (err e, s) h = h

  final_err :
      (e : Error) (x : Result (Unit {0}) × S)
      → Outcome (λ _ s. E e s) E x
      → Outcome Q E (after_final (err e) x)
  final_err e (ok _, s) h = h
  final_err e (err e', s) h = h

  Outcome-final :
      (f : Exec S (Unit {0})) (r : Result A × S)
      → Outcome Q E r
      → ((a : A) → Triple (Q a) f (λ _ s. Q a s) E)
      → ((e : Error) → Triple (E e) f (λ _ s. E e s) E)
      → Outcome Q E (run_final f r)
  Outcome-final f (ok a, s) h good bad = final_ok a (f s) ((good a).at s h)
  Outcome-final f (err e, s) h good bad = final_err e (f s) ((bad e).at s h)

-- An exit action that runs after a return and after a raise.
pub Triple-finally :
    {S A : Type 0} {P : S → Type 0} {Q : A → S → Type 0} {E : Error → S → Type 0} {m : Exec S A}
    {f : Exec S (Unit {0})}
    → Triple P m Q E
    → ((a : A) → Triple (Q a) f (λ _ s. Q a s) E)
    → ((e : Error) → Triple (E e) f (λ _ s. E e s) E)
    → Triple P (finally m f) Q E
unfolding finally
Triple-finally {Q} {E} {m} {f} t good bad = record {
  at = λ s p. Outcome-final Q E f (m s) (t.at s p) good bad;
}

-- An action that keeps `P` keeps any fact beside it that is not of the state.
pub Triple-frame :
    {S A : Type 0} {P : S → Type 0} {F : Type 0} {m : Exec S A} {Q : A → S → Type 0}
    {E : Error → S → Type 0}
    → Triple P m Q E
    → Triple (λ s. P s × F) m (λ a s. Q a s × F) E
Triple-frame t = Triple-given (λ f. Triple-weaken t (λ s p. p) (λ a s q. (q, f)))

-- What holds of the collaborator, if there is one.
abbrev pub IfSome {ℓ} : {K : Type 0} → (K → Type ℓ) → Option K → Type ℓ
IfSome H none = Unit
IfSome H (some k) = H k

pub Triple-when_some :
    {S K : Type 0} {P : S → Type 0} {E : Error → S → Type 0} {H : K → Type 0} (o : Option K)
    (f : K → Exec S (Unit {0}))
    → IfSome H o
    → ((k : K) → H k → Triple P (f k) (λ _ s. P s) E)
    → Triple P (when_some o f) (λ _ s. P s) E
unfolding when_some
Triple-when_some none f h t = Triple-pure tt (λ s p. p)
Triple-when_some (some k) f h t = t k h

-- What a triple says of a run that returned.
pub Triple-ok :
    {W A : Type 0} {P : W → Type 0} {m : Exec W A} {Q : A → W → Type 0} {E : Error → W → Type 0}
    (t : Triple P m Q E) (w w' : W) (a : A)
    → P w
    → m w ≡ (ok a, w')
    → Q a w'
Triple-ok {Q} {E} t w w' a p h = rw (← ap (Outcome Q E) h) (t.at w p)
