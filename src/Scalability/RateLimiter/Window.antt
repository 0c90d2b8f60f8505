-- ===== src/Scalability/RateLimiter/Window.antt =====
-- Counting in lists of clock readings, and what `incr_window` does to the windows.
use ai_risk_engine.Prelude.{
  ℕ, ◌+◌, ◌≤◌, ◌≡◌, refl, Bool, true, String, List, [], ◌∷◌, ◌++◌, arith, if◌then◌else◌, length,
  select, ◌==◌, lookup-insert, prefixed_eq,
}
use ai_risk_engine.Scalability.RateLimiter.{Windows, window_of, is_live, incr_window, key_of}

-- How many items pass the test.
abbrev pub count {ℓ} : {A : Type ℓ} → (A → Bool) → List A → ℕ
count p [] = 0
count p (x ∷ xs) = (if p x then 1 else 0) + count p xs

pub count-append {ℓ} :
    {A : Type ℓ} (p : A → Bool) (xs ys : List A) → count p (xs ++ ys) ≡ count p xs + count p ys
count-append p [] ys = omega arith
count-append p (x ∷ xs) ys = omega (arith, count-append p xs ys)

pub length-select {ℓ} :
    {A : Type ℓ} (p : A → Bool) (xs : List A) → length (select p xs) ≡ count p xs
length-select p [] = refl
length-select p (x ∷ xs) = ground (arith, length-select p xs)

-- A reading that is live later is live now: dropping the others first changes no later count.
pub count-select-live :
    (window now later : ℕ) (ts : List ℕ)
    → now ≤ later
    → count (is_live window later) (select (is_live window now) ts)
      ≡ count (is_live window later) ts
count-select-live window now later [] h = refl
count-select-live window now later (t ∷ ts) h =
    ground (arith, count-select-live window now later ts h)

pub count_mono {ℓ} :
    {A : Type ℓ} (p q : A → Bool) (xs : List A)
    → ((x : A) → p x ≡ true → q x ≡ true)
    → count p xs ≤ count q xs
count_mono p q [] h = omega arith
count_mono p q (x ∷ xs) h = ground (arith, h x, count_mono p q xs h)

pub key_of-eq : (a b : String) → (key_of a == key_of b) ≡ (a == b)
unfolding key_of
key_of-eq a b = prefixed_eq "rate:tenant:" a b

pub window_of-incr_window :
    (a b : String) (window now : ℕ) (w : Windows)
    → window_of (incr_window (key_of a) window now w).1 (key_of b) ≡ (
        if a == b
        then select (is_live window now) (window_of w (key_of a)) ++ now ∷ []
        else window_of w (key_of b))
unfolding incr_window window_of
window_of-incr_window a b window now w =
    let times = select (is_live window now) (window_of w (key_of a)) ++ now ∷ [] in
    ground (arith, lookup-insert w (key_of b) (key_of a) times, key_of-eq a b)
