-- ===== src/Base/Number.antt =====
-- Python's integers where their sign matters, and their decimal text.
use Prim.Native.Nat.{ℕ, zero, suc, ◌+◌, ◌/◌, ◌%◌, max}
use mathlib.Core.Path.{◌≡◌, refl}
use mathlib.Core.List.{[], ◌∷◌}
use bagsvault.Base.Tests.{ltb, if◌then◌else◌}
use bagsvault.Base.Text.{Str}

-- `negsuc n` is -(n + 1).
pub data ℤ : Type 0 where
  pos : ℕ → ℤ
  negsuc : ℕ → ℤ

-- max(lo, x), for a bound that is not negative
unfoldable pub at_least : ℕ → ℤ → ℕ
at_least lo (pos n) = max lo n
at_least lo (negsuc n) = lo

unfoldable pub show_loop : ℕ → ℕ → Str → Str
show_loop zero n acc = acc
show_loop (suc fuel) n acc =
    let rest = show_loop fuel (n / 10) ((48 + n % 10) ∷ acc) in
    if ltb n 10 then (48 + n % 10) ∷ acc else rest

-- str(n): every round drops a digit, so `n + 1` rounds are enough.
unfoldable pub show_ℕ : ℕ → Str
unfolding show_loop
show_ℕ n = show_loop (suc n) n []

-- str(z)
unfoldable pub show_ℤ : ℤ → Str
unfolding show_ℕ
show_ℤ (pos n) = show_ℕ n
show_ℤ (negsuc n) = b'-' ∷ show_ℕ (suc n)

show_ℕ-502 : show_ℕ 502 ≡ b'5' ∷ b'0' ∷ b'2' ∷ []
unfolding show_ℕ
show_ℕ-502 = refl
