-- ===== src/Base/Decimal.antt =====
-- Decimal text of Python's integers: `int(text)`, and the numbers that stand in a text.
use Prim.Native.Nat.{ℕ, zero, suc, ◌+◌, ◌-◌, ◌*◌, ◌/◌, ◌%◌, ◌<◌}
use mathlib.Core.Path.{◌≡◌, refl, ap, ◌∙◌}
use mathlib.Core.Logic.{inl, inr}
use mathlib.Core.Bool.{Bool, true, false, ◌&&◌}
use mathlib.Core.Option.{Option, none, some}
use mathlib.Core.List.{List, [], ◌∷◌, ◌++◌}
use native.Mathlib.Omega.{arith}
use bagsvault.Base.Tests.{ltb, leb, ◌==◌, if◌then◌else◌, Bool-cases}
use bagsvault.Base.Lists.{All}
use bagsvault.Base.Text.{Str}
use bagsvault.Base.Spaces.{strip}
use bagsvault.Base.Number.{ℤ, pos, negsuc, show_loop, show_ℕ}

abbrev pub is_digit : ℕ → Bool
is_digit c = leb b'0' c && leb c b'9'

-- One character of a text of digits, in which single underscores stand between digits: what has been read
-- so far, and whether a digit was the last.
unfoldable pub digit_step : ℕ → Option (ℕ × Bool) → Option (ℕ × Bool)
digit_step c none = none
digit_step c (some (v, after_digit)) =
    if is_digit c
    then some (v * 10 + (c - 48), true)
    else if c == b'_' && after_digit
    then some (v, false)
    else none

unfoldable pub digits_from : Option (ℕ × Bool) → Str → Option (ℕ × Bool)
unfolding digit_step
digits_from st [] = st
digits_from st (c ∷ cs) = digits_from (digit_step c st) cs

ends_on_digit : Option (ℕ × Bool) → Option ℕ
ends_on_digit none = none
ends_on_digit (some (v, true)) = some v
ends_on_digit (some (v, false)) = none

-- an unsigned number; the digits of ASCII only
unfoldable pub unsigned : Str → Option ℕ
unfolding digits_from ends_on_digit
unsigned s = ends_on_digit (digits_from (some (0, false)) s)

signed_by : Bool → Option ℕ → Option ℤ
signed_by negative none = none
signed_by true (some zero) = some (pos 0)
signed_by true (some (suc n)) = some (negsuc n)
signed_by false (some n) = some (pos n)

after_sign : Str → Option ℤ
unfolding signed_by unsigned
after_sign [] = none
after_sign (c ∷ cs) =
    if c == b'-'
    then signed_by true (unsigned cs)
    else signed_by false (unsigned (if c == b'+' then cs else c ∷ cs))

-- `int(text)`; none where it raises ValueError
unfoldable pub parse_int : Str → Option ℤ
unfolding after_sign strip
parse_int s = after_sign (strip s)

-- One character of a text that is searched for numbers: the number that has begun, and one that ends.
unfoldable pub scan_step : ℕ → Option ℕ → Option ℕ × List ℕ
scan_step c none = (if is_digit c then some (c - 48) else none, [])
scan_step c (some v) =
    (if is_digit c then some (v * 10 + (c - 48)) else none, if is_digit c then [] else v ∷ [])

-- The numbers of a text, in decimal digits between other characters.
unfoldable pub numbers_from : Option ℕ → Str → List ℕ
unfolding scan_step
numbers_from none [] = []
numbers_from (some v) [] = v ∷ []
numbers_from st (c ∷ cs) = let (st', found) = scan_step c st in found ++ numbers_from st' cs

abbrev pub NoDigits : Str → Type 0
NoDigits = All (λ c. is_digit c ≡ false)

numbers_from-step :
    (st : Option ℕ) (c : ℕ) (cs : Str)
    → numbers_from st (c ∷ cs) ≡ (scan_step c st).1 ++ numbers_from (scan_step c st).0 cs
unfolding numbers_from
numbers_from-step none c cs = refl
numbers_from-step (some v) c cs = refl

pub numbers_from-skip : (t r : Str) → NoDigits t → numbers_from none (t ++ r) ≡ numbers_from none r
unfolding scan_step
numbers_from-skip [] r h = refl
numbers_from-skip (c ∷ t) r (no_digit, rest) =
    numbers_from-step none c (t ++ r) ∙ rw no_digit (numbers_from-skip t r rest)

-- A number ends at a character that is no digit.
numbers_from-end :
    (v c : ℕ) (r : Str)
    → is_digit c ≡ false
    → numbers_from (some v) (c ∷ r) ≡ v ∷ numbers_from none r
unfolding scan_step
numbers_from-end v c r h = numbers_from-step (some v) c r ∙ rw h

numbers_from-digit :
    (n v : ℕ) (st : Option ℕ) (r : Str)
    → (scan_step (48 + n % 10) st).1 ≡ []
    → (scan_step (48 + n % 10) st).0 ≡ some v
    → numbers_from st ((48 + n % 10) ∷ r) ≡ numbers_from (some v) r
numbers_from-digit n v st r none_found is =
    numbers_from-step st (48 + n % 10) r ∙ rw (none_found, is)

is_digit_of : (n : ℕ) → is_digit (48 + n % 10) ≡ true
is_digit_of n = ground arith

numbers_from-show_loop :
    (fuel n : ℕ) (acc r : Str)
    → n < fuel
    → numbers_from none (show_loop fuel n acc ++ r) ≡ numbers_from (some n) (acc ++ r)
unfolding show_loop
numbers_from-show_loop zero n acc r h = absurd (omega arith)
numbers_from-show_loop (suc fuel) n acc r h = elim (Bool-cases (ltb n 10)) [
  | inl small ↦
      let whole : n % 10 ≡ n = ground arith in
      rw small (
        numbers_from-digit n n none (acc ++ r) (unfold scan_step in refl)
          (unfold scan_step in rw (is_digit_of n) (ap some (omega arith))))
  | inr large ↦ rw large (
      numbers_from-show_loop fuel (n / 10) ((48 + n % 10) ∷ acc) r (ground arith)
      ∙ numbers_from-digit n n (some (n / 10)) (acc ++ r) (unfold scan_step in rw (is_digit_of n))
          (unfold scan_step in rw (is_digit_of n) (ap some (omega arith))))
]

-- The text of a number reads as the number.
pub numbers_from-show_ℕ :
    (n c : ℕ) (r : Str)
    → is_digit c ≡ false
    → numbers_from none (show_ℕ n ++ (c ∷ r)) ≡ n ∷ numbers_from none r
unfolding show_ℕ
numbers_from-show_ℕ n c r h =
    numbers_from-show_loop (suc n) n [] (c ∷ r) (omega arith) ∙ numbers_from-end n c r h
