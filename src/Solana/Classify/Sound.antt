-- ===== src/Solana/Classify/Sound.antt =====
-- What the classification says of an error's text, and which errors of the RPC client are retried.
use Prim.Native.Nat.{◌≤◌, ◌<◌}
use bagsvault.Base.{
  leb→le, codes, none, some, all_from, all_from_sound, Bool-cases, ℕ, ◌≡◌, refl, ◌↔◌, ◌⊎◌, inl, inr,
  ◌||◌, Bool, true, false, Str, Option, arith, leb, ◌==◌,
}
use bagsvault.Json.{Json, obj}
use bagsvault.Exceptions.{Exn, domain, upstream, err}
use bagsvault.Solana.Rpc.{read_envelope, Post, http_error, response, http_message, call}
use bagsvault.Solana.Classify.{Class, retryable, fatal, exception, classify_rpc_error}

is_busy : ℕ → Bool
is_busy status = status == 429 || (status == 502 || (status == 503 || status == 504))

is_retryable : Class → Bool
is_retryable retryable = true
is_retryable fatal = false

same : Bool → Bool → Bool
same true b = b
same false true = false
same false false = true

agrees : ℕ → Bool
unfolding is_busy is_retryable same classify_rpc_error http_message
agrees status =
    same (is_retryable (classify_rpc_error (exception (domain upstream (http_message status)))))
      (is_busy status)

table : all_from 200 400 agrees ≡ true
unfolding all_from agrees
table = refl

agrees_iff :
    (status : ℕ)
    → agrees status ≡ true
    → (classify_rpc_error (exception (domain upstream (http_message status))) ≡ retryable)
      ↔ (is_busy status ≡ true)
unfolding agrees is_retryable same
agrees_iff status h = ground arith

http_class :
    (status : ℕ)
    → 400 ≤ status
    → status < 600
    → (classify_rpc_error (exception (domain upstream (http_message status))) ≡ retryable)
      ↔ (is_busy status ≡ true)
http_class status lo hi = agrees_iff status (all_from_sound 200 400 agrees status table lo hi)

abbrev pub IsBusy : Post → Type 0
IsBusy (http_error e) = ⊥
IsBusy (response status body) = (status ≡ 429) ⊎ (status ≡ 502) ⊎ (status ≡ 503) ⊎ (status ≡ 504)

abbrev pub InHttpRange : Post → Type 0
InHttpRange (http_error e) = Unit
InHttpRange (response status body) = status < 600

abbrev class_of : Str → Class
class_of message = classify_rpc_error (exception (domain upstream message))

network_fatal : class_of (codes "Failed to reach Solana RPC.") ≡ fatal
unfolding classify_rpc_error
network_fatal = refl

bad_body_fatal : class_of (codes "Solana RPC returned a non-JSON body.") ≡ fatal
unfolding classify_rpc_error
bad_body_fatal = refl

bad_shape_fatal : class_of (codes "Solana RPC returned an unexpected JSON shape.") ≡ fatal
unfolding classify_rpc_error
bad_shape_fatal = refl

envelope_fatal : class_of (codes "Solana RPC returned an error envelope.") ≡ fatal
unfolding classify_rpc_error
envelope_fatal = refl

read_envelope-fatal :
    (body : Option Json) (e : Exn)
    → read_envelope body ≡ err e
    → classify_rpc_error (exception e) ≡ fatal
unfolding read_envelope
read_envelope-fatal none e h = ground (arith, bad_body_fatal)
read_envelope-fatal (some (obj fs)) e h = ground (arith, envelope_fatal)
read_envelope-fatal (some _) e h = ground (arith, bad_shape_fatal)

is_busy_iff :
    (status : ℕ)
    → (is_busy status ≡ true) ↔ ((status ≡ 429) ⊎ (status ≡ 502) ⊎ (status ≡ 503) ⊎ (status ≡ 504))
unfolding is_busy
is_busy_iff status = ground arith

-- An error that one JSON-RPC call raises, for a status below 600, is worth a retry if and only if the
-- HTTP status was 429, 502, 503 or 504: an error in the envelope, whatever it says, is not, nor is a
-- failure of the network.
call-retryable :
    (post : Post) (e : Exn)
    → InHttpRange post
    → call post ≡ err e
    → (classify_rpc_error (exception e) ≡ retryable) ↔ IsBusy post
unfolding call
call-retryable (http_error m) e r h = (λ x. ground (arith, network_fatal), λ x. absurd x)
call-retryable (response status body) e r h = elim (Bool-cases (leb 400 status)) [
  | inl bad ↦
      let iff = http_class status (omega (arith, leb→le 400 status bad)) r in
      let raised_is : domain upstream (http_message status) ≡ e = ground arith in
      (
        (λ x. (is_busy_iff status).0 (iff.0 (rw raised_is x))),
        (λ x. rw (← raised_is) (iff.1 ((is_busy_iff status).1 x))),
      )
  | inr good ↦ (λ x. ground (arith, read_envelope-fatal body e), λ x. absurd (ground arith))
]
