-- ===== src/Prelude/Texts.antt =====
-- Python's `str` operations that the program uses: `strip`, truth, and dictionaries keyed by text.
use Prim.Native.Nat.{ℕ}
use Prim.Native.Char.{code}
use Prim.Native.String.{String, ◌++◌}
use mathlib.Core.Path.{◌≡◌, refl, ap}
use mathlib.Core.Bool.{Bool, true, false, ◌&&◌, ◌||◌}
use mathlib.Core.Logic.{inl, inr}
use mathlib.Core.Option.{Option, none, some}
use mathlib.Core.List.{List, [], ◌∷◌}
use native.Mathlib.Omega.{arith}
use text.Mathlib.Text.{◌==◌}
use text.Mathlib.TextEquality.{eq_iff}
use text.Mathlib.TextLemmas.{append_cancel_left}
use text.Mathlib.TextPositions.{eq_refl}
use ai_risk_engine.Prelude.Tests.{leb, Bool-cases, if◌then◌else◌}

-- The code points that Python's `str.isspace` accepts.
abbrev pub is_space : ℕ → Bool
is_space c =
    leb 9 c && leb c 13
    || leb 28 c && leb c 32
    || leb 133 c && leb c 133
    || leb 160 c && leb c 160
    || leb 5760 c && leb c 5760
    || leb 8192 c && leb c 8202
    || leb 8232 c && leb c 8233
    || leb 8239 c && leb c 8239
    || leb 8287 c && leb c 8287
    || leb 12288 c && leb c 12288

-- `not s.strip()`: nothing but white space.
abbrev pub is_blank : String → Bool
is_blank String.[] = true
is_blank (String.◌∷◌ c s) = is_space (code c) && is_blank s

-- `not s`
abbrev pub is_empty : String → Bool
is_empty String.[] = true
is_empty (String.◌∷◌ c s) = false

pub not-empty_of_not-blank : (s : String) → is_blank s ≡ false → is_empty s ≡ false
not-empty_of_not-blank String.[] h = h
not-empty_of_not-blank (String.◌∷◌ c s) h = refl

-- `s.strip()`
unfoldable pub lstrip : String → String
lstrip String.[] = ""
lstrip (String.◌∷◌ c s) = let rest = lstrip s in if is_space (code c) then rest else String.◌∷◌ c s

unfoldable pub rstrip : String → String
rstrip String.[] = ""
rstrip (String.◌∷◌ c s) =
    let rest = rstrip s in if is_space (code c) && is_empty rest then "" else String.◌∷◌ c rest

unfoldable pub strip : String → String
unfolding lstrip rstrip
strip s = rstrip (lstrip s)

-- A dictionary with text keys; a later write to a key wins.
abbrev pub Table {ℓ} : Type ℓ → Type ℓ
Table V = List (String × V)

module _ {ℓ} {V : Type ℓ} where
  unfoldable pub lookup : String → Table V → Option V
  lookup key [] = none
  lookup key (entry ∷ table) = if entry.0 == key then some entry.1 else lookup key table

  -- The entry of the key is overwritten where it stands, else a new one is added at the end.
  unfoldable pub insert : String → V → Table V → Table V
  insert key value [] = (key, value) ∷ []
  insert key value (entry ∷ table) =
      if entry.0 == key then (key, value) ∷ table else entry ∷ insert key value table

  pub lookup-insert :
      (table : Table V) (asked written : String) (value : V)
      → lookup asked (insert written value table)
        ≡ (if written == asked then some value else lookup asked table)
  unfolding lookup insert
  lookup-insert [] asked written value = refl
  lookup-insert (entry ∷ table) asked written value = ground (
    arith,
    lookup-insert table asked written value,
    eq_iff written asked,
    eq_iff entry.0 written,
    eq_iff entry.0 asked,
  )

-- `d.pop(key, None)` leaves this dictionary.
unfoldable pub remove {ℓ} : {V : Type ℓ} → String → Table V → Table V
remove key [] = []
remove key (entry ∷ table) =
    let rest = remove key table in if entry.0 == key then rest else entry ∷ rest

pub lookup-remove {ℓ} :
    {V : Type ℓ} (asked key : String) (table : Table V)
    → lookup asked (remove key table) ≡ (if key == asked then none else lookup asked table)
unfolding lookup remove
lookup-remove asked key [] = ground arith
lookup-remove asked key (entry ∷ table) = ground (
  arith,
  lookup-remove asked key table,
  eq_iff key asked,
  eq_iff entry.0 key,
  eq_iff entry.0 asked,
)

-- Entering a key that is not there and popping it changes nothing.
pub remove-insert {ℓ} :
    {V : Type ℓ} (key : String) (value : V) (table : Table V)
    → lookup key table ≡ none
    → remove key (insert key value table) ≡ table
unfolding lookup insert remove
remove-insert key value [] h = rw (eq_refl key) refl
remove-insert key value (entry ∷ table) h = elim (Bool-cases (entry.0 == key)) [
  | inl same ↦ absurd (ground (arith, rw same at h))
  | inr other ↦
      rw (other, other) (ap (λ rest. entry ∷ rest) (remove-insert key value table (rw other at h)))
]

-- Keys with one prefix are equal exactly if what follows is.
pub prefixed_eq : (p a b : String) → ((p ++ a) == (p ++ b)) ≡ (a == b)
prefixed_eq p a b = ground (arith, eq_iff (p ++ a) (p ++ b), eq_iff a b, append_cancel_left p a b)
