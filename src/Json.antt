-- ===== src/Json.antt =====
-- The values that `json.loads` gives: what the RPC and the other services return.
pub mod Int
use bagsvault.Base.{
  zero, ℤ, pos, [], ◌∷◌, not, ◌&&◌, ◌||◌, ◌==◌, Str, Option, none, some, Bool, true, false, eq_str,
  if◌then◌else◌,
}

mutual
  pub data Json : Type 0 where
    null : Json
    bool : Bool → Json
    num : ℤ → Json
    -- a float, by its text
    float : Str → Json
    str : Str → Json
    arr : Items → Json
    obj : Fields → Json

  pub data Items : Type 0 where
    nil : Items
    cons : Json → Items → Items

  pub data Fields : Type 0 where
    end : Fields
    field : Str → Json → Fields → Fields

-- d.get(key), with `none` for a missing key
unfoldable pub get_field : Str → Fields → Option Json
unfolding eq_str
get_field k end = none
get_field k (field j v fs) = if eq_str j k then some v else get_field k fs

abbrev pub as_str : Option Json → Option Str
as_str (some (str s)) = some s
as_str _ = none

-- isinstance(v, dict)
abbrev pub as_obj : Option Json → Option Fields
as_obj (some (obj fs)) = some fs
as_obj _ = none

-- v is not None
abbrev pub is_not_none : Option Json → Bool
is_not_none none = false
is_not_none (some null) = false
is_not_none (some _) = true

-- the text of a float that is zero
is_zero_text : Str → Bool
is_zero_text [] = true
is_zero_text (c ∷ cs) =
    c == b'e' || (c == b'E' || ((c == b'0' || (c == b'.' || c == b'-')) && is_zero_text cs))

-- a or b, where both may be missing: an empty text, a 0, an empty list and null are false
unfoldable pub is_truthy : Option Json → Bool
unfolding is_zero_text
is_truthy none = false
is_truthy (some null) = false
is_truthy (some (bool b)) = b
is_truthy (some (num (pos zero))) = false
is_truthy (some (float text)) = not (is_zero_text text)
is_truthy (some (str [])) = false
is_truthy (some (arr nil)) = false
is_truthy (some (obj end)) = false
is_truthy (some _) = true

unfoldable pub or_else : Option Json → Option Json → Option Json
unfolding is_truthy
or_else a b = if is_truthy a then a else b

-- isinstance(v, list)
abbrev pub as_arr : Option Json → Option Items
as_arr (some (arr xs)) = some xs
as_arr _ = none

-- str(v), where `show` gives the text of what is no text
unfoldable pub text_of : (Json → Str) → Json → Str
text_of show (str s) = s
text_of show null = show null
text_of show (bool b) = show (bool b)
text_of show (num z) = show (num z)
text_of show (float t) = show (float t)
text_of show (arr xs) = show (arr xs)
text_of show (obj fs) = show (obj fs)
