-- ===== src/Solana/Rpc/Errors.antt =====
-- The errors of the RPC client.
use bagsvault.Base.{ℕ, ℤ, List, Option, none, some, Str, codes, Bool-cases, inl, inr, leb}
use bagsvault.Json.{Json, null, str, arr, obj, nil, get_field, is_not_none, or_else}
use bagsvault.Exceptions.{domain, upstream, Result, ok, err, ◌>>=◌}
use bagsvault.Solana.Rpc.{
  Post, http_error, response, read_envelope, call, as_signature, send_transaction,
}
use bagsvault.Solana.Rpc.Methods.{
  get_health, slot_of, as_int, get_slot, transaction_of, get_transaction, account_of, account_in,
  get_account_info, values_of, entries_in, get_multiple_accounts, get_signature_statuses,
  get_program_accounts, dict_or, value_in, dict_in, blockhash_of, get_recent_blockhash,
  simulate_transaction,
}

-- The only error is `UpstreamError`.
abbrev pub IsUpstream {ℓ} : {A : Type ℓ} → Result A → Type 0
IsUpstream (ok a) = Unit
IsUpstream (err (domain upstream message)) = Unit
IsUpstream (err _) = ⊥

bind-IsUpstream :
    {A B : Type 0} (r : Result A) (f : A → Result B)
    → IsUpstream r
    → ((a : A) → IsUpstream (f a))
    → IsUpstream (r >>= f)
bind-IsUpstream (ok a) f h next = next a
bind-IsUpstream (err (domain upstream message)) f h next = tt
bind-IsUpstream (err _) f h next = absurd h

envelope-IsUpstream : (body : Option Json) → IsUpstream (read_envelope body)
unfolding read_envelope
envelope-IsUpstream none = tt
envelope-IsUpstream (some (obj fs)) =
    elim (Bool-cases (is_not_none (get_field (codes "error") fs))) [
      | inl e ↦ rw e tt
      | inr e ↦ rw e tt
    ]
envelope-IsUpstream (some _) = tt

call-IsUpstream : (post : Post) → IsUpstream (call post)
unfolding call
call-IsUpstream (http_error e) = tt
call-IsUpstream (response status body) = elim (Bool-cases (leb 400 status)) [
  | inl e ↦ rw e tt
  | inr e ↦ rw e (envelope-IsUpstream body)
]

signature-IsUpstream : (v : Json) → IsUpstream (as_signature v)
unfolding as_signature
signature-IsUpstream (str s) = tt
signature-IsUpstream _ = tt

slot-IsUpstream : (z : Option ℤ) → IsUpstream (slot_of z)
unfolding slot_of
slot-IsUpstream none = tt
slot-IsUpstream (some z) = tt

transaction-IsUpstream : (v : Json) → IsUpstream (transaction_of v)
unfolding transaction_of
transaction-IsUpstream null = tt
transaction-IsUpstream (obj fs) = tt
transaction-IsUpstream _ = tt

account_of-IsUpstream : (v : Option Json) → IsUpstream (account_of v)
unfolding account_of
account_of-IsUpstream none = tt
account_of-IsUpstream (some null) = tt
account_of-IsUpstream (some (obj fs)) = tt
account_of-IsUpstream (some _) = tt

account-IsUpstream : (v : Json) → IsUpstream (account_in v)
unfolding account_in
account-IsUpstream (obj fs) = account_of-IsUpstream (get_field _ fs)
account-IsUpstream _ = tt

values-IsUpstream : (message : Str) (v : Option Json) → IsUpstream (values_of message v)
unfolding values_of
values-IsUpstream message (some (arr vs)) = tt
values-IsUpstream message _ = tt

entries-IsUpstream : (message : Str) (n : ℕ) (v : Json) → IsUpstream (entries_in message n v)
unfolding entries_in
entries-IsUpstream message n (obj fs) =
    values-IsUpstream message (or_else (get_field _ fs) (some (arr nil)))
entries-IsUpstream message n _ = tt

dict_or-IsUpstream : (message : Str) (v : Json) → IsUpstream (dict_or message v)
unfolding dict_or
dict_or-IsUpstream message (obj fs) = tt
dict_or-IsUpstream message _ = tt

value-IsUpstream : (message : Str) (v : Option Json) → IsUpstream (value_in message v)
unfolding value_in
value-IsUpstream message none = tt
value-IsUpstream message (some v) = dict_or-IsUpstream message v

dict-IsUpstream : (no_result no_value : Str) (v : Json) → IsUpstream (dict_in no_result no_value v)
unfolding dict_in
dict-IsUpstream no_result no_value (obj fs) = value-IsUpstream no_value (get_field _ fs)
dict-IsUpstream no_result no_value _ = tt

blockhash-IsUpstream : (b : Option Json) (z : Option ℤ) → IsUpstream (blockhash_of b z)
unfolding blockhash_of
blockhash-IsUpstream (some (str s)) (some z) = tt
blockhash-IsUpstream _ _ = tt

-- Whatever a node answers, or if it cannot be reached, every method of the RPC client returns or raises
-- `UpstreamError`, and nothing else.
pub methods-IsUpstream :
    (show : Json → Str) (keys signatures : List Str) (post : Post)
    → IsUpstream (get_health show post)
      × IsUpstream (get_slot post)
      × IsUpstream (get_transaction post)
      × IsUpstream (get_account_info post)
      × IsUpstream (get_multiple_accounts keys post)
      × IsUpstream (get_program_accounts post)
      × IsUpstream (get_recent_blockhash post)
      × IsUpstream (send_transaction post)
      × IsUpstream (simulate_transaction post)
      × IsUpstream (get_signature_statuses signatures post)
unfolding get_health get_slot get_transaction get_account_info get_multiple_accounts
    get_program_accounts get_recent_blockhash send_transaction simulate_transaction
    get_signature_statuses
methods-IsUpstream show keys signatures post =
    let called = call-IsUpstream post in
    (
      bind-IsUpstream (call post) _ called (λ v. tt),
      bind-IsUpstream (call post) _ called (λ v. slot-IsUpstream (as_int (some v))),
      bind-IsUpstream (call post) _ called transaction-IsUpstream,
      bind-IsUpstream (call post) _ called account-IsUpstream,
      bind-IsUpstream (call post) _ called (entries-IsUpstream _ _),
      bind-IsUpstream (call post) _ called (λ v. tt),
      bind-IsUpstream (call post) _ called (λ v.
          bind-IsUpstream (dict_in _ _ v) _ (dict-IsUpstream _ _ v) λ fs. blockhash-IsUpstream _ _),
      bind-IsUpstream (call post) _ called signature-IsUpstream,
      bind-IsUpstream (call post) _ called (dict-IsUpstream _ _),
      bind-IsUpstream (call post) _ called (entries-IsUpstream _ _),
    )
