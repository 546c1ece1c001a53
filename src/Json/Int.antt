-- ===== src/Json/Int.antt =====
-- `int` and `bytes` of a value that `json.loads` gives.
use bagsvault.Base.{
  ℕ, ℤ, pos, negsuc, true, false, List, [], ◌∷◌, ◌++◌, Option, none, some, Str, codes, ltb,
  if◌then◌else◌,
}
use bagsvault.Base.Decimal.{parse_int}
use bagsvault.Json.{Json, null, bool, num, float, str, arr, obj, Items, nil, cons}
use bagsvault.Exceptions.{Exn, raised, value_error, type_error, Result, ok, err, ◌>>=◌}

unfoldable pub or_value_error : Option ℤ → Result ℤ
or_value_error none = err (raised value_error (codes "invalid literal for int() with base 10"))
or_value_error (some z) = ok z

no_int : Str → Exn
no_int name = raised type_error (
    codes "int() argument must be a string, a bytes-like object or a real number, not '"
    ++ (name ++ codes "'"))

-- `int(value)`; `truncate` is `int` of a float, which may raise for what is no number
unfoldable pub int : (Str → Result ℤ) → Json → Result ℤ
unfolding or_value_error parse_int no_int
int truncate (num z) = ok z
int truncate (bool true) = ok (pos 1)
int truncate (bool false) = ok (pos 0)
int truncate (str s) = or_value_error (parse_int s)
int truncate (float t) = truncate t
int truncate null = err (no_int (codes "NoneType"))
int truncate (arr xs) = err (no_int (codes "list"))
int truncate (obj fs) = err (no_int (codes "dict"))

and_int : ℤ → Option (List ℤ) → Option (List ℤ)
and_int z none = none
and_int z (some zs) = some (z ∷ zs)

-- the integers of a list, if it has no other elements; a `bool` is an `int`
unfoldable pub all_ints : Items → Option (List ℤ)
unfolding and_int
all_ints nil = some []
all_ints (cons (num z) vs) = and_int z (all_ints vs)
all_ints (cons (bool true) vs) = and_int (pos 1) (all_ints vs)
all_ints (cons (bool false) vs) = and_int (pos 0) (all_ints vs)
all_ints (cons null vs) = none
all_ints (cons (float t) vs) = none
all_ints (cons (str s) vs) = none
all_ints (cons (arr xs) vs) = none
all_ints (cons (obj fs) vs) = none

out_of_bytes : Exn
out_of_bytes = raised value_error (codes "bytes must be in range(0, 256)")

byte_of : ℤ → Result ℕ
unfolding out_of_bytes
byte_of (negsuc n) = err out_of_bytes
byte_of (pos n) = if ltb n 256 then ok n else err out_of_bytes

-- `bytes(list)`
unfoldable pub bytes_of_ints : List ℤ → Result (List ℕ)
unfolding byte_of
bytes_of_ints [] = ok []
bytes_of_ints (z ∷ zs) = do b ← byte_of z; bs ← bytes_of_ints zs; ok (b ∷ bs)
