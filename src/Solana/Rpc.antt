-- ===== src/Solana/Rpc.antt =====
-- `SolanaRpcClient` of backend/app/clients/solana_rpc.py: what one JSON-RPC call returns or raises.
pub mod Methods
pub mod Errors
use bagsvault.Base.{ℕ, ◌++◌, Str, codes, Option, none, some, leb, show_ℕ, if◌then◌else◌}
use bagsvault.Json.{Json, null, str, obj, get_field, is_not_none}
use bagsvault.Exceptions.{domain, upstream, Result, ok, err, ◌>>=◌}

-- What `client.post` does: an `httpx.HTTPError`, or a status with a body that may be no JSON.
pub data Post : Type 0 where
  http_error : Str → Post
  response : ℕ → Option Json → Post

unfoldable pub or_null : Option Json → Json
or_null none = null
or_null (some v) = v

unfoldable pub read_envelope : Option Json → Result Json
unfolding or_null get_field
read_envelope none = err (domain upstream (codes "Solana RPC returned a non-JSON body."))
read_envelope (some (obj envelope)) =
    if is_not_none (get_field (codes "error") envelope)
    then err (domain upstream (codes "Solana RPC returned an error envelope."))
    else ok (or_null (get_field (codes "result") envelope))
read_envelope (some _) =
    err (domain upstream (codes "Solana RPC returned an unexpected JSON shape."))

-- the message of an HTTP error status
unfoldable pub http_message : ℕ → Str
unfolding show_ℕ
http_message status = codes "Solana RPC returned HTTP " ++ (show_ℕ status ++ codes ".")

unfoldable pub call : Post → Result Json
unfolding read_envelope http_message
call (http_error e) = err (domain upstream (codes "Failed to reach Solana RPC."))
call (response status body) =
    if leb 400 status then err (domain upstream (http_message status)) else read_envelope body

unfoldable pub as_signature : Json → Result Str
as_signature (str s) = ok s
as_signature _ =
    err (domain upstream (codes "Solana RPC sendTransaction returned non-string signature."))

unfoldable pub send_transaction : Post → Result Str
unfolding call as_signature
send_transaction post = do result ← call post; as_signature result
