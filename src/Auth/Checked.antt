-- ===== src/Auth/Checked.antt =====
-- What holds of a request that passes.
use bagsvault.Base.{
  ℕ, ◌+◌, ◌*◌, ◌≤◌, List, Bool, true, false, Option, none, some, Str, ◌≡◌, refl, sym, ◌∙◌, ap,
  arith, is_empty, ltb, Bool-cases, inl, inr, eq_str, eq_str_iff, length, ◌==◌, ==_iff, ◌≢◌,
}
use bagsvault.Exceptions.{Exn, Result, ok, err, >>=-eq-ok, ok-injective}
use bagsvault.Auth.{
  IsoTime, AuthHeaders, extract_address, extract_issued_at, verify_signature, header, same_address,
  in_time, signed, require_wallet, is_decode_error, verified, verify_bytes, decoded,
}

header-ok : (h : Option Str) (s : Str) → header h ≡ ok s → h ≡ some s
unfolding header
header-ok none s h = absurd (cc)
header-ok (some x) s h = elim (Bool-cases (is_empty x)) [
  | inl e ↦ let h' = rw e at h in absurd (cc)
  | inr e ↦ let h' = rw e at h in cc
]

same_address-ok :
    (address : Str) (found : Option Str) (a : Str)
    → same_address address found ≡ ok tt
    → found ≡ some a
    → a ≡ address
unfolding same_address
same_address-ok address none a h e = absurd (cc)
same_address-ok address (some x) a h e = elim (Bool-cases (eq_str x address)) [
  | inl t ↦ let same = (eq_str_iff x address).0 t in cc
  | inr f ↦ let h' = rw f at h in absurd (cc)
]

not_ltb : (a b : ℕ) → ltb a b ≡ false → b ≤ a
not_ltb a b h = ground arith

in_time-ok :
    (max_age now issued : ℕ)
    → in_time max_age now issued ≡ ok tt
    → (now ≤ issued + max_age * 1000000) × (issued ≤ now + 60000000)
unfolding in_time
in_time-ok max_age now issued h = elim (Bool-cases (ltb (issued + max_age * 1000000) now)) [
  | inl e ↦ let h' = rw e at h in absurd (cc)
  | inr e ↦
      let h' = rw e at h in
      elim (Bool-cases (ltb (now + 60000000) issued)) [
        | inl d ↦ let h'' = rw d at h' in absurd (cc)
        | inr d ↦ (not_ltb _ _ e, not_ltb _ _ d)
      ]
]

signed-ok : (b : Bool) → signed b ≡ ok tt → b ≡ true
unfolding signed
signed-ok true h = refl
signed-ok false h = absurd (cc)

module _ (b58decode : Str → Result (List ℕ))
    (verify : List ℕ → Str → List ℕ → Result (Unit {0})) where
  verified-ok : (r : Result (Unit {0})) → ok (verified r) ≡ ok true → r ≡ ok tt
  unfolding verified
  verified-ok (ok tt) h = refl
  verified-ok (err e) h = absurd (cc)

  -- The two texts are base58 of 32 and of 64 bytes, and the library verifies these for the message.
  abbrev pub Signs : Str → Str → Str → Type 0
  Signs address message signature =
      (pubkey : List ℕ) × (b58decode address ≡ ok pubkey)
      × (length pubkey ≡ 32)
      × (bytes : List ℕ) × (b58decode signature ≡ ok bytes)
      × (length bytes ≡ 64)
      × (verify pubkey message bytes ≡ ok tt)

  verify_bytes-ok :
      (message : Str) (pubkey bytes : List ℕ)
      → verify_bytes verify message (ok (pubkey, bytes)) ≡ ok true
      → (length pubkey ≡ 32) × (length bytes ≡ 64) × (verify pubkey message bytes ≡ ok tt)
  unfolding verify_bytes
  verify_bytes-ok message pubkey bytes h = elim (Bool-cases (length pubkey == 32)) [
    | inr e ↦ let h' = rw e at h in absurd (cc)
    | inl e ↦
        let h' = rw e at h in
        elim (Bool-cases (length bytes == 64)) [
          | inr d ↦ let h'' = rw d at h' in absurd (cc)
          | inl d ↦
              let h'' = rw d at h' in
              ((==_iff _ _).0 e, (==_iff _ _).0 d, verified-ok (verify pubkey message bytes) h'')
        ]
  ]

  not_decoded : (message : Str) (e : Exn) → verify_bytes verify message (err e) ≢ ok true
  unfolding verify_bytes
  not_decoded message e h = elim (Bool-cases (is_decode_error e)) [
    | inl t ↦ let h' = rw t at h in absurd (cc)
    | inr f ↦ let h' = rw f at h in absurd (cc)
  ]

  decoded-Signs :
      (address message signature : Str) (r : Result (List ℕ × List ℕ))
      → decoded b58decode verify address signature ≡ r
      → verify_bytes verify message r ≡ ok true
      → Signs address message signature
  unfolding decoded
  decoded-Signs address message signature (err e) h good = absurd (not_decoded message e good)
  decoded-Signs address message signature (ok (pubkey, bytes)) h good =
      let (p, is_p, h1) = >>=-eq-ok (b58decode address) _ h in
      let (b, is_b, h2) = >>=-eq-ok (b58decode signature) _ h1 in
      let same = ok-injective h2 in
      let (l32, l64, v) = verify_bytes-ok message pubkey bytes good in
      (pubkey, is_p ∙ ap (λ x. ok x.0) same, l32, bytes, is_b ∙ ap (λ x. ok x.1) same, l64, v)

  verify_signature-Signs :
      (address message signature : Str)
      → verify_signature b58decode verify address message signature ≡ ok true
      → Signs address message signature
  unfolding verify_signature
  verify_signature-Signs address message signature h =
      decoded-Signs address message signature _ refl h

module _ (b58decode : Str → Result (List ℕ)) (verify : List ℕ → Str → List ℕ → Result (Unit {0}))
    (from_iso : Str → Option IsoTime) (max_age : ℕ) where
  -- If the check of the wallet headers returns an address, then it is the one in the address header, an
  -- address that the message names is the same, the message was issued at most the maximal age before
  -- and at most 60 seconds after the clock, the address is base58 of 32 bytes and the signature in its
  -- header of 64 bytes, and the library verifies that signature of that message with that key.
  pub require_wallet-ok :
      (now : ℕ) (headers : AuthHeaders) (address : Str)
      → require_wallet b58decode verify from_iso max_age now headers ≡ ok address
      → (headers.address ≡ some address)
        × (signature : Str) × (headers.signature ≡ some signature)
        × (message : Str) × (headers.message ≡ some message)
        × ((a : Str) → extract_address message ≡ some a → a ≡ address)
        × (issued : ℕ) × (extract_issued_at from_iso message ≡ ok issued)
        × (now ≤ issued + max_age * 1000000)
        × (issued ≤ now + 60000000)
        × Signs b58decode verify address message signature
  unfolding require_wallet
  require_wallet-ok now headers address h =
      let (a, is_a, h1) = >>=-eq-ok _ _ h in
      let (s, is_s, h2) = >>=-eq-ok _ _ h1 in
      let (m, is_m, h3) = >>=-eq-ok _ _ h2 in
      let (u, same, h4) = >>=-eq-ok _ _ h3 in
      let (i, is_i, h5) = >>=-eq-ok _ _ h4 in
      let (v, timely, h6) = >>=-eq-ok _ _ h5 in
      let (b, is_b, h7) = >>=-eq-ok _ _ h6 in
      let (w, good, h8) = >>=-eq-ok _ _ h7 in
      let is_address : a ≡ address = ok-injective h8 in
      let is_true : b ≡ true = signed-ok b good in
      (
        header-ok _ address (is_a ∙ ap ok is_address),
        s,
        header-ok _ s is_s,
        m,
        header-ok _ m is_m,
        (λ x e. same_address-ok a (extract_address m) x same e ∙ is_address),
        i,
        is_i,
        (in_time-ok max_age now i timely).0,
        (in_time-ok max_age now i timely).1,
        verify_signature-Signs b58decode verify address m s (
            ap (λ x. verify_signature b58decode verify x m s) (sym is_address)
            ∙ is_b
            ∙ ap ok is_true),
      )
