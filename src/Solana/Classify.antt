-- ===== src/Solana/Classify.antt =====
-- `_classify_rpc_error` of backend/app/clients/tx_executor.py.
pub mod Sound
pub mod Markers
use bagsvault.Base.{
  ℕ, ◌++◌, ◌∷◌, [], List, Str, codes, Option, none, some, lower, contains_any, if◌then◌else◌,
}
use bagsvault.Exceptions.{Exn, exn_str}

pub data Class : Type 0 where
  retryable fatal : Class

-- The error is an exception, or a dictionary: the texts of three of its values and its own.
pub data RpcError : Type 0 where
  exception : Exn → RpcError
  mapping : Option Str → Option Str → Option Str → Str → RpcError

pub retryable_markers : List Str
retryable_markers =
    codes "blockhashnotfound"
    ∷ codes "block not available"
    ∷ codes "node is behind"
    ∷ codes "429"
    ∷ codes "rate limit"
    ∷ codes "too many requests"
    ∷ codes "502"
    ∷ codes "503"
    ∷ codes "504"
    ∷ codes "bad gateway"
    ∷ codes "service unavailable"
    ∷ codes "gateway timeout"
    ∷ []

pub fatal_markers : List Str
fatal_markers =
    codes "insufficientfundsforrent"
    ∷ codes "insufficient funds"
    ∷ codes "invalidaccountdata"
    ∷ codes "accountnotfound"
    ∷ codes "instructionerror"
    ∷ codes "transaction simulation failed"
    ∷ []

piece : Option Str → Str
piece none = []
piece (some v) = b' ' ∷ v

pub error_text : RpcError → Str
unfolding piece exn_str
error_text (exception e) = exn_str e
error_text (mapping message err_upper err_lower rendered) =
    piece message ++ (piece err_upper ++ (piece err_lower ++ (b' ' ∷ rendered)))

unfoldable pub classify_rpc_error : RpcError → Class
unfolding error_text lower contains_any fatal_markers retryable_markers
classify_rpc_error e =
    let lowered = lower (error_text e) in
    if contains_any fatal_markers lowered
    then fatal
    else if contains_any retryable_markers lowered
    then retryable
    else fatal
