-- ===== src/Exceptions.antt =====
-- backend/app/exceptions.py: the domain errors, and the response that the handler makes of one.
-- The `details` dictionary of an error is diagnostic output and is left out.
use bagsvault.Base.{ℕ, Bool, true, false, Str, codes, ◌≡◌, refl, ◌⊎◌, inl, inr, arith}

-- The subclasses of `BagsVaultError`.
pub data ErrorKind : Type 0 where
  base service_unavailable upstream validation auth conflict not_found : ErrorKind

-- Exceptions of Python and of the libraries that the program names.
pub data PyClass : Type 0 where
  value_error overflow_error type_error key_error duplicate_key bad_parameter other : PyClass

pub data Exn : Type 0 where
  domain : ErrorKind → Str → Exn
  raised : PyClass → Str → Exn

pub status_code : ErrorKind → ℕ
status_code base = 500
status_code service_unavailable = 503
status_code upstream = 502
status_code validation = 400
status_code auth = 401
status_code conflict = 409
status_code not_found = 404

pub error_code : ErrorKind → Str
error_code base = codes "internal_error"
error_code service_unavailable = codes "service_unavailable"
error_code upstream = codes "upstream_error"
error_code validation = codes "validation_error"
error_code auth = codes "auth_error"
error_code conflict = codes "conflict"
error_code not_found = codes "not_found"

-- str(exc)
unfoldable pub exn_str : Exn → Str
exn_str (domain k message) = message
exn_str (raised c message) = message

-- what `except (TypeError, ValueError)` catches
unfoldable pub is_type_or_value : Exn → Bool
is_type_or_value (domain k message) = false
is_type_or_value (raised value_error message) = true
is_type_or_value (raised type_error message) = true
is_type_or_value (raised overflow_error message) = false
is_type_or_value (raised key_error message) = false
is_type_or_value (raised duplicate_key message) = false
is_type_or_value (raised bad_parameter message) = false
is_type_or_value (raised other message) = false

pub record ErrorResponse : Type 0 where
  pub status : ℕ
  pub code : Str
  pub message : Str

pub bagsvault_handler : ErrorKind → Str → ErrorResponse
unfolding status_code error_code
bagsvault_handler k message = record {
  status = status_code k;
  code = error_code k;
  message = message;
}

pub data Result {ℓ} (A : Type ℓ) : Type ℓ where
  ok : A → Result A
  err : Exn → Result A

-- What raises ends the block.
infixl 5 ◌>>=◌
abbrev pub ◌>>=◌ {ℓa ℓb} :
    {A : Type ℓa} {B : Type ℓb} (answer : Result A) (next : A → Result B) → Result B
err raised_here >>= next = err raised_here
ok value >>= next = next value

-- The status tells the error classes apart.
status_code-injective : (j k : ErrorKind) → status_code j ≡ status_code k → j ≡ k
unfolding status_code
status_code-injective j k h = ground arith

-- A block that returns has returned from its first step, and from the rest of it.
pub >>=-eq-ok {ℓa ℓb} :
    {A : Type ℓa} {B : Type ℓb} {out : B} (answer : Result A) (next : A → Result B)
    (h : (answer >>= next) ≡ ok out)
    → (value : A) × (answer ≡ ok value) × (next value ≡ ok out)
>>=-eq-ok (err raised_here) next h = absurd (cc)
>>=-eq-ok (ok value) next h = (value, refl, h)

pub Result-cases {ℓ} :
    {A : Type ℓ} (r : Result A) → ((a : A) × (r ≡ ok a)) ⊎ ((e : Exn) × (r ≡ err e))
Result-cases (ok a) = inl (a, refl)
Result-cases (err e) = inr (e, refl)

pub ok-injective {ℓ} : {A : Type ℓ} {a b : A} → ok a ≡ ok b → a ≡ b
ok-injective h = cc
