-- ===== src/Auth.antt =====
-- backend/app/auth.py: the sign-in message and the check of the wallet headers. The two patterns are
-- written as searches. Times are microseconds after some time before all dates.
pub mod Checked
pub mod OneLine
use bagsvault.Base.{
  ℕ, ◌+◌, ◌*◌, ◌++◌, ◌∷◌, [], List, Bool, true, false, not, ◌&&◌, ◌||◌, ◌==◌, Option, none, some,
  Str, codes, eq_str, is_empty, ltb, leb, drop, length, starts_with, if◌then◌else◌,
}
use bagsvault.Base.Spaces.{is_space, skip_spaces, strip}
use bagsvault.Exceptions.{
  Exn, domain, raised, auth, value_error, overflow_error, type_error, key_error, duplicate_key,
  bad_parameter, other, Result, ok, err, ◌>>=◌,
}

unfoldable pub word : Str → Str
word [] = []
word (c ∷ cs) = if is_space c then [] else c ∷ word cs

unfoldable pub after_word : Str → Str
after_word [] = []
after_word (c ∷ cs) = if is_space c then c ∷ cs else after_word cs

-- `\s*$`
unfoldable pub ends_line : Str → Bool
ends_line [] = true
ends_line (c ∷ cs) = (c == 10) || (is_space c && ends_line cs)

unfoldable pub line_of : Str → Str
line_of [] = []
line_of (c ∷ cs) = if c == 10 then [] else c ∷ line_of cs

abbrev pub issued_label : Str
issued_label = codes "Issued At:"

abbrev pub address_label : Str
address_label = codes "sign in with your Solana account:\n"

unfoldable pub non_empty : Str → Option Str
non_empty [] = none
non_empty (c ∷ cs) = some (c ∷ cs)

unfoldable pub or_else : Option Str → Option Str → Option Str
or_else (some s) o = some s
or_else none o = o

-- `_ISSUED_AT_RE` at the start of a line
unfoldable pub issued_here : Str → Option Str
issued_here s =
    let rest = skip_spaces (drop (length issued_label) s) in
    if starts_with issued_label s && ends_line (after_word rest)
    then non_empty (word rest)
    else none

-- `_ISSUED_AT_RE.search`, where the flag tells whether a line starts here
unfoldable pub issued_from : Bool → Str → Option Str
issued_from at_start [] = none
issued_from at_start (c ∷ cs) =
    let rest = issued_from (c == 10) cs in
    if at_start then or_else (issued_here (c ∷ cs)) rest else rest

unfoldable pub address_here : Str → Option Str
address_here s =
    if starts_with address_label s
    then non_empty (line_of (drop (length address_label) s))
    else none

-- `_ADDRESS_LINE_RE.search`
unfoldable pub address_from : Str → Option Str
address_from [] = none
address_from (c ∷ cs) = let rest = address_from cs in or_else (address_here (c ∷ cs)) rest

stripped : Option Str → Option Str
stripped none = none
stripped (some s) = some (strip s)

unfoldable pub extract_address : Str → Option Str
unfolding stripped
extract_address message = stripped (address_from message)

-- What `datetime.fromisoformat` gives: a time with an offset, or one without, read as UTC.
pub data IsoTime : Type 0 where
  aware naive : ℕ → IsoTime

unfoldable pub build_auth_message : Str → Str → Str → (issued_at : Option Str) → Result Str
build_auth_message host address nonce none =
    err (raised value_error (codes "issued_at must be timezone-aware"))
build_auth_message host address nonce (some iso) = ok (
    host
    ++ (codes " wants you to "
        ++ (address_label
            ++ (address
                ++ (codes "\n\nAuthorize BagsVault session.\n\nNonce: "
                    ++ (nonce ++ (codes "\n" ++ (issued_label ++ (codes " " ++ iso)))))))))

pub record AuthHeaders : Type 0 where
  pub address : Option Str
  pub signature : Option Str
  pub message : Option Str

unfoldable pub utc : IsoTime → ℕ
utc (aware t) = t
utc (naive t) = t

-- `datetime.fromisoformat` is an argument: nothing stands for its ValueError
unfoldable pub parsed : Option IsoTime → Result ℕ
parsed none = err (domain auth (codes "Auth message has malformed 'Issued At' timestamp."))
parsed (some t) = ok (utc t)

unfoldable pub stamped : (Str → Option IsoTime) → Option Str → Result ℕ
stamped from_iso none = err (domain auth (codes "Auth message missing 'Issued At' field."))
stamped from_iso (some raw) = parsed (from_iso raw)

unfoldable pub extract_issued_at : (Str → Option IsoTime) → Str → Result ℕ
extract_issued_at from_iso message = stamped from_iso (issued_from true message)

unfoldable pub is_decode_error : Exn → Bool
is_decode_error (domain k m) = false
is_decode_error (raised value_error m) = true
is_decode_error (raised type_error m) = true
is_decode_error (raised overflow_error m) = false
is_decode_error (raised key_error m) = false
is_decode_error (raised duplicate_key m) = false
is_decode_error (raised bad_parameter m) = false
is_decode_error (raised other m) = false

unfoldable pub verified : Result (Unit {0}) → Bool
verified (ok u) = true
verified (err e) = false

-- `verify_signature`, on what base58 gives and with the check of nacl
unfoldable pub verify_bytes :
    (List ℕ → Str → List ℕ → Result (Unit {0})) → Str → Result (List ℕ × List ℕ) → Result Bool
unfolding is_decode_error verified
verify_bytes verify message (err e) = if is_decode_error e then ok false else err e
verify_bytes verify message (ok (pubkey, signature)) =
    if not (length pubkey == 32) || not (length signature == 64)
    then ok false
    else ok (verified (verify pubkey message signature))

module _ (b58decode : Str → Result (List ℕ))
    (verify : List ℕ → Str → List ℕ → Result (Unit {0})) where
  unfoldable pub decoded : Str → Str → Result (List ℕ × List ℕ)
  decoded address signature = do
    pubkey ← b58decode address
    signature_bytes ← b58decode signature
    ok (pubkey, signature_bytes)

  unfoldable pub verify_signature : Str → Str → Str → Result Bool
  unfolding decoded
  verify_signature address message signature =
      verify_bytes verify message (decoded address signature)

missing : Exn
missing = domain auth (codes "Missing wallet auth headers.")

unfoldable pub header : Option Str → Result Str
unfolding missing
header none = err missing
header (some h) = if is_empty h then err missing else ok h

unfoldable pub same_address : Str → Option Str → Result (Unit {0})
same_address address none = ok tt
same_address address (some a) =
    if eq_str a address
    then ok tt
    else err (domain auth (codes "Auth message address does not match X-Wallet-Address header."))

unfoldable pub in_time : ℕ → ℕ → ℕ → Result (Unit {0})
in_time max_age now issued_at =
    if ltb (issued_at + max_age * 1000000) now
    then err (domain auth (codes "Auth message expired."))
    else if ltb (now + 60000000) issued_at
    then err (domain auth (codes "Auth message issued in the future."))
    else ok tt

unfoldable pub signed : Bool → Result (Unit {0})
signed true = ok tt
signed false = err (domain auth (codes "Invalid wallet signature."))

module _ (b58decode : Str → Result (List ℕ)) (verify : List ℕ → Str → List ℕ → Result (Unit {0}))
    (from_iso : Str → Option IsoTime) (max_age : ℕ) where
  unfoldable pub require_wallet : ℕ → AuthHeaders → Result Str
  require_wallet now headers = do
    address ← header headers.address
    signature ← header headers.signature
    message ← header headers.message
    _ ← same_address address (extract_address message)
    issued_at ← extract_issued_at from_iso message
    _ ← in_time max_age now issued_at
    is_valid ← verify_signature b58decode verify address message signature
    _ ← signed is_valid
    ok address
