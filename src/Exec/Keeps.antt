-- ===== src/Exec/Keeps.antt =====
-- What an action leaves alone, whether it returns or raises, with one rule for each way to build an
-- action.
use ai_risk_engine.Errors.{Error, ErrorClass}
use ai_risk_engine.Exec.{
  Exec, Result, ok, err, pure, throw, lift, raise, proceed, recover, catch, ◌>>=◌, when_some,
  finally, after_final,
}
use ai_risk_engine.Exec.Triple.{IfSome}
use ai_risk_engine.Prelude.{
  Option, none, some, ◌≡◌, refl, ◌∙◌, Bool, true, false, String, if◌then◌else◌,
}

-- The action never changes what `look` sees.
pub record Keeps {W V A : Type 0} (look : W → V) (m : Exec W A) : Type 0 where
  pub at : (w : W) → look (m w).1 ≡ look w

module _ {W V A : Type 0} {look : W → V} where
  pub Keeps-pure : (a : A) → Keeps look (pure a)
  unfolding pure
  Keeps-pure a = record { at = λ w. refl }

  pub Keeps-lift : (r : Result A) → Keeps look (lift r)
  unfolding lift
  Keeps-lift r = record { at = λ w. refl }

  pub Keeps-throw : (e : Error) → Keeps look (throw {A = A} e)
  unfolding throw
  Keeps-throw e = record { at = λ w. refl }

  pub Keeps-raise : (c : ErrorClass) (m : String) → Keeps look (raise {A = A} c m)
  unfolding raise throw
  Keeps-raise c m = record { at = λ w. refl }

  pub Keeps-if :
      (b : Bool) {m n : Exec W A} → Keeps look m → Keeps look n → Keeps look (if b then m else n)
  Keeps-if true hm hn = hm
  Keeps-if false hm hn = hn

  pub Keeps-catch :
      {m : Exec W A} {h : Error → Exec W A}
      → Keeps look m
      → ((e : Error) → Keeps look (h e))
      → Keeps look (catch m h)
  unfolding catch
  Keeps-catch {m} {h} hm hh = record { at = λ w. after (m w) ∙ hm.at w }
    where
      after : (r : Result A × W) → look (recover h r).1 ≡ look r.1
      after (ok a, w) = refl
      after (err e, w) = (hh e).at w

pub Keeps-bind :
    {W V A B : Type 0} {look : W → V} {m : Exec W A} {f : A → Exec W B}
    → Keeps look m
    → ((a : A) → Keeps look (f a))
    → Keeps look (m >>= f)
unfolding ◌>>=◌
Keeps-bind {W} {A} {look} {m} {f} hm hf = record { at = λ w. after (m w) ∙ hm.at w }
  where
    after : (r : Result A × W) → look (proceed f r).1 ≡ look r.1
    after (ok a, w) = (hf a).at w
    after (err e, w) = refl

pub Keeps-when_some :
    {W V K : Type 0} {look : W → V} (H : K → Type 0) (o : Option K) (f : K → Exec W (Unit {0}))
    → IfSome H o
    → ((k : K) → H k → Keeps look (f k))
    → Keeps look (when_some o f)
unfolding when_some
Keeps-when_some H none f h k = Keeps-pure tt
Keeps-when_some H (some x) f h k = k x h

pub Keeps-finally :
    {W V A : Type 0} {look : W → V} {m : Exec W A} {f : Exec W (Unit {0})}
    → Keeps look m
    → Keeps look f
    → Keeps look (finally m f)
unfolding finally
Keeps-finally {W} {A} {look} {m} {f} hm hf = record {
  at = λ w. after (m w).0 (f (m w).1) ∙ hf.at (m w).1 ∙ hm.at w;
}
  where
    after : (r : Result A) (x : Result (Unit {0}) × W) → look (after_final r x).1 ≡ look x.1
    after r (ok _, w) = refl
    after r (err e, w) = refl
