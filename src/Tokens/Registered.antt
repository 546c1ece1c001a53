-- ===== src/Tokens/Registered.antt =====
-- Registering a token again.
use bagsvault.Base.{
  Option, none, some, Str, ◌≡◌, refl, ◌∙◌, ap, eq_str, eq_str_refl, Bool-cases, inl, inr,
}
use bagsvault.Exceptions.{Result, ok}
use bagsvault.Mongo.{Insert, inserted, duplicate, failed, Collection, Laws}
use bagsvault.Tokens.{
  ProjectToken, TokenRegister, Fresh, World, existing_token, new_token, after_insert,
  register_token, register,
}

abbrev pub mint_of : ProjectToken → Str
mint_of t = t.mint

existing-ok :
    (existing token : ProjectToken) (payload : TokenRegister)
    → existing_token existing payload ≡ ok token
    → token ≡ existing
unfolding existing_token
existing-ok existing token payload h =
    elim (Bool-cases (eq_str existing.creator_wallet payload.creator_wallet)) [
      | inl e ↦ let h' = rw e at h in cc
      | inr e ↦ let h' = rw e at h in absurd (cc)
    ]

existing-new :
    (vault : Str) (fresh : Fresh) (payload : TokenRegister)
    → existing_token (new_token vault fresh payload) payload ≡ ok (new_token vault fresh payload)
unfolding existing_token new_token
existing-new vault fresh payload = rw (eq_str_refl payload.creator_wallet)

module _ {S C : Type 0} (rows : Collection S ProjectToken)
    (link_creator : C → ProjectToken → Option C) (vault : Str) (laws : Laws mint_of rows) where
  abbrev run : World S C → Fresh → TokenRegister → World S C × Result ProjectToken
  run w fresh payload = register rows link_creator vault w fresh payload

  -- Found under its mint afterwards, and the answer to the same payload.
  Answers : World S C → TokenRegister → ProjectToken → Type 0
  Answers w payload token =
      (rows.find_one w.tokens payload.mint ≡ some token) × (existing_token token payload ≡ ok token)

  after_insert-ok :
      (w w' : World S C) (fresh : Fresh) (payload : TokenRegister) (token : ProjectToken)
      (i : Insert S)
      → rows.insert_one w.tokens (new_token vault fresh payload) ≡ i
      → after_insert rows link_creator vault w (new_token vault fresh payload) i ≡ (w', ok token)
      → Answers w' payload token
  unfolding Answers after_insert
  after_insert-ok w w' fresh payload token (inserted s) e h =
      let same : new_token vault fresh payload ≡ token = cc in
      let kept : s ≡ w'.tokens = cc in
      rw (← kept, ← same)
        (
          unfold new_token in
              laws.find-insert w.tokens s (new_token vault fresh payload) payload.mint e
              ∙ rw (eq_str_refl payload.mint),
          existing-new vault fresh payload,
        )
  after_insert-ok w w' fresh payload token duplicate e h = absurd (cc)
  after_insert-ok w w' fresh payload token (failed message) e h = absurd (cc)

  register_token-ok :
      (w w' : World S C) (fresh : Fresh) (payload : TokenRegister) (token : ProjectToken)
      (o : Option ProjectToken)
      → rows.find_one w.tokens payload.mint ≡ o
      → register_token rows link_creator vault w fresh payload o ≡ (w', ok token)
      → Answers w' payload token
  unfolding Answers register_token
  register_token-ok w w' fresh payload token none e h =
      after_insert-ok w w' fresh payload token _ refl h
  register_token-ok w w' fresh payload token (some existing) e h =
      let given : existing_token existing payload ≡ ok token = cc in
      let kept : w ≡ w' = cc in
      let same = existing-ok existing token payload given in
      rw (← kept, same) (e, given ∙ ap ok same)

  -- For a collection with a unique index on the mint: if a registration returns a token, then
  -- registering the same payload again returns the same token and changes nothing.
  register_token_twice :
      (w w' : World S C) (fresh fresh' : Fresh) (payload : TokenRegister) (token : ProjectToken)
      → run w fresh payload ≡ (w', ok token)
      → run w' fresh' payload ≡ (w', ok token)
  unfolding register register_token Answers
  register_token_twice w w' fresh fresh' payload token h =
      let (found, again) = register_token-ok w w' fresh payload token _ refl h in rw (found, again)
