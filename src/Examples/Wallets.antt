-- ===== src/Examples/Wallets.antt =====
-- A request with wallet headers, with base58 read as itself and every signature valid.
use bagsvault.Base.{ℕ, ◌+◌, ◌*◌, ◌≤◌, List, true, Option, some, Str, codes, ◌≡◌, refl, starts_with}
use bagsvault.Exceptions.{Result, ok}
use bagsvault.Auth.{
  IsoTime, aware, AuthHeaders, extract_address, extract_issued_at, issued_label, verify_signature,
  require_wallet,
}
use bagsvault.Auth.Checked.{Signs, require_wallet-ok}
use bagsvault.Auth.OneLine.{IsOneLine, require_wallet-label}

abbrev b58 : Str → Result (List ℕ)
b58 s = ok s

abbrev valid : List ℕ → Str → List ℕ → Result (Unit {0})
valid key text signature = ok tt

abbrev iso : Str → Option IsoTime
iso s = some (aware 1000)

abbrev wallet : Str
wallet = codes "abcdefghabcdefghabcdefghabcdefgh"

abbrev signature : Str
signature = codes "abcdefghabcdefghabcdefghabcdefghabcdefghabcdefghabcdefghabcdefgh"

abbrev message : Str
message = codes "Issued At: now"

abbrev headers : AuthHeaders
headers = record { address = some wallet; signature = some signature; message = some message }

passes : require_wallet b58 valid iso 300 2000 headers ≡ ok wallet
unfolding require_wallet bagsvault.Auth.header bagsvault.Auth.same_address extract_address
    bagsvault.Auth.address_from bagsvault.Auth.address_here bagsvault.Auth.in_time
    bagsvault.Auth.signed verify_signature bagsvault.Auth.verify_bytes bagsvault.Auth.decoded
    extract_issued_at bagsvault.Auth.stamped bagsvault.Auth.parsed bagsvault.Auth.issued_from
    bagsvault.Auth.issued_here bagsvault.Auth.or_else bagsvault.Base.Spaces.skip_spaces
    bagsvault.Auth.word bagsvault.Auth.after_word bagsvault.Auth.ends_line
    bagsvault.Base.Spaces.is_space bagsvault.Auth.non_empty bagsvault.Auth.utc starts_with
passes = refl

one_line : IsOneLine message
unfolding IsOneLine
one_line = (
  refl,
  (
    refl,
    (
      refl,
      (refl, (refl, (refl, (refl, (refl, (refl, (refl, (refl, (refl, (refl, (refl, tt))))))))))),
    ),
  ),
)

require_wallet-ok_example :
    (headers.address ≡ some wallet)
    × (s : Str) × (headers.signature ≡ some s)
    × (m : Str) × (headers.message ≡ some m)
    × ((a : Str) → extract_address m ≡ some a → a ≡ wallet)
    × (issued : ℕ) × (extract_issued_at iso m ≡ ok issued)
    × (2000 ≤ issued + 300 * 1000000)
    × (issued ≤ 2000 + 60000000)
    × Signs b58 valid wallet m s
require_wallet-ok_example = require_wallet-ok b58 valid iso 300 2000 headers wallet passes

require_wallet-label_example : starts_with issued_label message ≡ true
require_wallet-label_example =
    require_wallet-label b58 valid iso 300 2000 headers message wallet refl one_line passes
