-- ===== src/Auth/OneLine.antt =====
-- Messages of one line: what a header can carry.
use bagsvault.Base.{
  ℕ, ◌∷◌, [], List, true, false, ◌==◌, Option, none, some, Str, ◌≡◌, refl, sym, ◌∙◌, ap, Bool-cases,
  inl, inr, starts_with,
}
use bagsvault.Exceptions.{Result, ok}
use bagsvault.Auth.{
  IsoTime, AuthHeaders, extract_issued_at, stamped, issued_from, issued_here, or_else, issued_label,
  require_wallet,
}
use bagsvault.Auth.Checked.{require_wallet-ok}

-- No character is a line feed.
unfoldable pub IsOneLine : Str → Type 0
IsOneLine [] = Unit
IsOneLine (c ∷ cs) = ((c == 10) ≡ false) × IsOneLine cs

issued_from-inside : (s : Str) → IsOneLine s → issued_from false s ≡ none
unfolding issued_from IsOneLine
issued_from-inside [] h = refl
issued_from-inside (c ∷ cs) (other, rest) = rw other (issued_from-inside cs rest)

here-label : (s : Str) (raw : Str) → issued_here s ≡ some raw → starts_with issued_label s ≡ true
unfolding issued_here
here-label s raw h = elim (Bool-cases (starts_with issued_label s)) [
  | inl e ↦ e
  | inr e ↦ let h' = rw e at h in absurd (cc)
]

or_else-none : (o : Option Str) → or_else o none ≡ o
unfolding or_else
or_else-none none = refl
or_else-none (some s) = refl

issued_from-label :
    (s raw : Str) → IsOneLine s → issued_from true s ≡ some raw → starts_with issued_label s ≡ true
unfolding issued_from IsOneLine
issued_from-label [] raw one h = absurd (cc)
issued_from-label (c ∷ cs) raw (other, rest) h =
    let h' = rw (other, issued_from-inside cs rest, or_else-none) at h in here-label (c ∷ cs) raw h'

stamped-ok :
    (from_iso : Str → Option IsoTime) (o : Option Str) (t : ℕ)
    → stamped from_iso o ≡ ok t
    → (raw : Str) × (o ≡ some raw)
unfolding stamped
stamped-ok from_iso none t h = absurd (cc)
stamped-ok from_iso (some raw) t h = (raw, refl)

issued_at-label :
    (from_iso : Str → Option IsoTime) (message : Str) (t : ℕ)
    → IsOneLine message
    → extract_issued_at from_iso message ≡ ok t
    → starts_with issued_label message ≡ true
unfolding extract_issued_at
issued_at-label from_iso message t one h =
    let (raw, found) = stamped-ok from_iso _ t h in issued_from-label message raw one found

-- If the message header has no line feed and the check of the headers passes, then the message begins
-- with the label of the time of issue.
pub require_wallet-label :
    (b58decode : Str → Result (List ℕ)) (verify : List ℕ → Str → List ℕ → Result (Unit {0}))
    (from_iso : Str → Option IsoTime) (max_age now : ℕ) (headers : AuthHeaders)
    (message address : Str)
    → headers.message ≡ some message
    → IsOneLine message
    → require_wallet b58decode verify from_iso max_age now headers ≡ ok address
    → starts_with issued_label message ≡ true
require_wallet-label b58decode verify from_iso max_age now headers message address given one h =
    let (_, _, _, m, is_m, _, t, is_t, _, _, _) =
      require_wallet-ok b58decode verify from_iso max_age now headers address h in
    let same : m ≡ message = cc in
    issued_at-label from_iso message t one (ap (extract_issued_at from_iso) (sym same) ∙ is_t)
