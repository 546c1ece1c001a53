-- ===== src/Base/Occurs.antt =====
-- Substrings as a relation, and the tests of Base/Text against it.
use Prim.Native.Nat.{ℕ}
use mathlib.Core.Path.{◌≡◌, refl, ap}
use mathlib.Core.Logic.{◌⊎◌, inl, inr}
use mathlib.Core.Bool.{true, ◌||◌}
use mathlib.Core.List.{List, [], ◌∷◌, ◌++◌}
use native.Mathlib.Omega.{arith}
use bagsvault.Base.Tests.{Bool-cases}
use bagsvault.Base.Text.{Str, starts_with, contains, contains_any}

-- `p` stands somewhere in `s`.
abbrev pub Occurs : Str → Str → Type 0
Occurs p s = (a : Str) × (b : Str) × (s ≡ a ++ (p ++ b))

abbrev pub AnyOccurs : List Str → Str → Type 0
AnyOccurs [] s = ⊥
AnyOccurs (p ∷ ps) s = Occurs p s ⊎ AnyOccurs ps s

starts_with_sound : (p s : Str) → starts_with p s ≡ true → (b : Str) × (s ≡ p ++ b)
unfolding starts_with
starts_with_sound [] s h = (s, refl)
starts_with_sound (x ∷ p) [] h = cc
starts_with_sound (x ∷ p) (y ∷ s) h =
    let (b, e) = starts_with_sound p s (ground arith) in (b, ground arith)

starts_with-append : (p b : Str) → starts_with p (p ++ b) ≡ true
unfolding starts_with
starts_with-append [] b = refl
starts_with-append (x ∷ p) b = ground (arith, starts_with-append p b)

contains_of_prefix : (p b : Str) → contains p (p ++ b) ≡ true
unfolding contains
contains_of_prefix [] [] = refl
contains_of_prefix [] (y ∷ b) = refl
contains_of_prefix (x ∷ p) b = ground (arith, starts_with-append p b)

pub contains_sound : (p s : Str) → contains p s ≡ true → Occurs p s
unfolding contains
contains_sound p [] h = let (b, e) = starts_with_sound p [] h in ([], b, e)
contains_sound p (x ∷ s) h = elim (Bool-cases (starts_with p (x ∷ s))) [
  | inl here ↦ let (b, e) = starts_with_sound p (x ∷ s) here in ([], b, e)
  | inr later ↦ let (a, b, e) = contains_sound p s (ground arith) in (x ∷ a, b, ap (λ t. x ∷ t) e)
]

contains-cons :
    (p : Str) (x : ℕ) (s : Str) → contains p (x ∷ s) ≡ (starts_with p (x ∷ s) || contains p s)
unfolding contains
contains-cons p x s = refl

pub contains_complete : (p a b : Str) → contains p (a ++ (p ++ b)) ≡ true
contains_complete p [] b = contains_of_prefix p b
contains_complete p (x ∷ a) b =
    ground (arith, contains-cons p x (a ++ (p ++ b)), contains_complete p a b)

pub contains_any_sound : (ps : List Str) (s : Str) → contains_any ps s ≡ true → AnyOccurs ps s
unfolding contains_any
contains_any_sound [] s h = cc
contains_any_sound (p ∷ ps) s h = elim (Bool-cases (contains p s)) [
  | inl found ↦ inl (contains_sound p s found)
  | inr missing ↦ inr (contains_any_sound ps s (ground arith))
]

pub contains_any_complete : (ps : List Str) (s : Str) → AnyOccurs ps s → contains_any ps s ≡ true
unfolding contains_any
contains_any_complete [] s h = absurd h
contains_any_complete (p ∷ ps) s (inl (a, b, e)) = rw e (ground (arith, contains_complete p a b))
contains_any_complete (p ∷ ps) s (inr h) = ground (arith, contains_any_complete ps s h)
