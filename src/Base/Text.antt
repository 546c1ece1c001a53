-- ===== src/Base/Text.antt =====
-- Python's `str` as the list of its code points, with the string operations that the program uses.
use Prim.Native.Nat.{ℕ, ◌+◌, ◌-◌}
use Prim.Native.Char.{code}
use Prim.Native.String.{String}
use mathlib.Core.Path.{◌≡◌, refl}
use mathlib.Core.Logic.{◌↔◌}
use mathlib.Core.Bool.{Bool, true, false, ◌&&◌, ◌||◌}
use mathlib.Core.List.{List, [], ◌∷◌, map}
use native.Mathlib.Omega.{arith}
use bagsvault.Base.Tests.{leb, ◌==◌, if◌then◌else◌}
use bagsvault.Base.Lists.{length, drop}

abbrev pub Str : Type 0
Str = List ℕ

-- The code points of a literal.
abbrev pub codes : String → Str
codes String.[] = []
codes (String.◌∷◌ c s) = code c ∷ codes s

-- s == t
unfoldable pub eq_str : Str → Str → Bool
eq_str [] [] = true
eq_str [] (y ∷ ys) = false
eq_str (x ∷ xs) [] = false
eq_str (x ∷ xs) (y ∷ ys) = (x == y) && eq_str xs ys

pub eq_str_iff : (s t : Str) → (eq_str s t ≡ true) ↔ (s ≡ t)
unfolding eq_str
eq_str_iff [] [] = ground arith
eq_str_iff [] (y ∷ ys) = ground arith
eq_str_iff (x ∷ xs) [] = ground arith
eq_str_iff (x ∷ xs) (y ∷ ys) = ground (arith, eq_str_iff xs ys)

pub eq_str_refl : (s : Str) → eq_str s s ≡ true
eq_str_refl s = (eq_str_iff s s).1 refl

-- bool(s): the empty string is false
abbrev pub is_empty : Str → Bool
is_empty [] = true
is_empty (x ∷ xs) = false

-- s.startswith(p)
unfoldable pub starts_with : Str → Str → Bool
starts_with [] s = true
starts_with (x ∷ xs) [] = false
starts_with (x ∷ xs) (y ∷ ys) = (x == y) && starts_with xs ys

-- needle in s
unfoldable pub contains : Str → Str → Bool
unfolding starts_with
contains p [] = starts_with p []
contains p (x ∷ xs) = starts_with p (x ∷ xs) || contains p xs

-- any(needle in s for needle in needles)
unfoldable pub contains_any : List Str → Str → Bool
unfolding contains
contains_any [] s = false
contains_any (p ∷ ps) s = contains p s || contains_any ps s

unfoldable pub to_lower : ℕ → ℕ
to_lower c = if leb b'A' c && leb c b'Z' then c + 32 else c

-- s.lower(), on ASCII
unfoldable pub lower : Str → Str
unfolding to_lower
lower s = map to_lower s

-- s.removeprefix(p)
unfoldable pub remove_prefix : Str → Str → Str
unfolding starts_with
remove_prefix p s = if starts_with p s then drop (length p) s else s

-- s[-n:]
unfoldable pub last : ℕ → Str → Str
last n s = drop (length s - n) s
