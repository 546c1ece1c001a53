-- ===== src/Withdraw/Relay/Twice.antt =====
-- The guard of `relay` over every sequence of later relays, on whatever chain answers them.
use bagsvault.Base.{
  List, [], ◌∷◌, Option, none, some, Str, codes, ◌≡◌, refl, ◌∙◌, ◌⊎◌, inl, inr, true, if◌then◌else◌,
  eq_str, eq_str_refl, eq_str_iff, Bool-cases,
}
use bagsvault.Exceptions.{domain, conflict, Result, ok, err}
use bagsvault.Mongo.{Insert, inserted, duplicate, failed, Laws}
use bagsvault.Withdraw.Relay.{Request, Withdrawal, Chain, Response, Prepared, prepare}
use bagsvault.Withdraw.Relay.Pipeline.{
  World, Services, Fresh, withdrawal, persisted, finish, handed, proceed, relay,
}
use bagsvault.Withdraw.Relay.Guard.{nullifier_of, relay-spent, Succeeded, relay-ok}

-- A later request, with what the chain answers to it and the values that are made for its row.
pub record Later : Type 0 where
  pub chain : Chain
  pub fresh : Fresh
  pub request : Request

-- The same services before another state of the chain.
abbrev pub before : {S R : Type 0} → Services S R → Chain → Services S R
before services chain = record {
  keys = services.keys;
  settings = services.settings;
  chain = chain;
  rows = services.rows;
  pick_best = services.pick_best;
  update_last_seen = services.update_last_seen;
}

-- The world after these requests, one after the other.
pub relay_all : {S R : Type 0} → Services S R → World S R → List Later → World S R
relay_all services w [] = w
relay_all services w (x ∷ xs) =
    relay_all services (relay (before services x.chain) w x.fresh x.request).0 xs

abbrev pub Raised : {S : Type 0} → Insert S → Type 0
Raised i = (i ≡ duplicate) ⊎ ((message : Str) × (i ≡ failed message))

module _ {S R : Type 0} (services : Services S R) where
  chosen-stays :
      (b : Option Withdrawal) (row found : Withdrawal) (k : Str)
      → b ≡ some found
      → (eq_str row.nullifier_hash k ≡ true → b ≡ none)
      → (if eq_str row.nullifier_hash k then some row else b) ≡ some found
  chosen-stays b row found k h other = elim (Bool-cases (eq_str row.nullifier_hash k)) [
    | inl e ↦ let gone = other e in absurd (cc)
    | inr e ↦ rw e h
  ]

  persisted-stays :
      Laws nullifier_of services.rows
      → (s : S) (row found : Withdrawal) (k : Str) (i : Insert S)
      → services.rows.insert_one s row ≡ i
      → services.rows.find_one s k ≡ some found
      → services.rows.find_one (persisted services i s) k ≡ some found
  unfolding persisted
  persisted-stays laws s row found k (inserted s') e h =
      laws.find-insert s s' row k e
      ∙ chosen-stays (services.rows.find_one s k) row found k h
          (λ same. rw (← (eq_str_iff row.nullifier_hash k).0 same) (laws.insert-unique s s' row e))
  persisted-stays laws s row found k duplicate e h = h
  persisted-stays laws s row found k (failed message) e h = h

  finish-stays :
      Laws nullifier_of services.rows
      → (w : World S R) (fresh : Fresh) (q : Request) (p : Prepared) (sent : Result Str) (k : Str)
        (found : Withdrawal)
      → services.rows.find_one w.withdrawals k ≡ some found
      → services.rows.find_one (finish services w fresh q p sent).0.withdrawals k ≡ some found
  unfolding finish
  finish-stays laws w fresh q p (err e) k found h = h
  finish-stays laws w fresh q p (ok signature) k found h =
      persisted-stays laws w.withdrawals (withdrawal fresh q p signature) found k _ refl h

  proceed-stays :
      Laws nullifier_of services.rows
      → (w : World S R) (fresh : Fresh) (q : Request) (r : Result Prepared) (k : Str)
        (found : Withdrawal)
      → services.rows.find_one w.withdrawals k ≡ some found
      → services.rows.find_one (proceed services w fresh q r).0.withdrawals k ≡ some found
  unfolding proceed handed
  proceed-stays laws w fresh q (err e) k found h = h
  proceed-stays laws w fresh q (ok p) k found h =
      finish-stays laws (handed services w p.ix) fresh q p _ k found h

  -- A relay keeps every row that is found.
  relay-stays :
      Laws nullifier_of services.rows
      → (w : World S R) (fresh : Fresh) (q : Request) (k : Str) (found : Withdrawal)
      → services.rows.find_one w.withdrawals k ≡ some found
      → services.rows.find_one (relay services w fresh q).0.withdrawals k ≡ some found
  unfolding relay
  relay-stays laws w fresh q k found h = proceed-stays laws w fresh q _ k found h

module _ {S R : Type 0} (services : Services S R) (laws : Laws nullifier_of services.rows) where
  relay_all-stays :
      (later : List Later) (w : World S R) (k : Str) (found : Withdrawal)
      → services.rows.find_one w.withdrawals k ≡ some found
      → services.rows.find_one (relay_all services w later).withdrawals k ≡ some found
  unfolding relay_all
  relay_all-stays [] w k found h = h
  relay_all-stays (x ∷ xs) w k found h =
      relay_all-stays xs _ k found
        (relay-stays (before services x.chain) laws w x.fresh x.request k found h)

  insert_cases :
      (w w' : World S R) (row : Withdrawal) (i : Insert S)
      → services.rows.insert_one w.withdrawals row ≡ i
      → w'.withdrawals ≡ persisted services i w.withdrawals
      → (Raised i × (w'.withdrawals ≡ w.withdrawals))
        ⊎ (services.rows.find_one w'.withdrawals row.nullifier_hash ≡ some row)
  unfolding persisted
  insert_cases w w' row (inserted s') e h = inr (
      rw h (
        laws.find-insert w.withdrawals s' row row.nullifier_hash e
        ∙ rw (eq_str_refl row.nullifier_hash)))
  insert_cases w w' row duplicate e h = inl (inl refl, h)
  insert_cases w w' row (failed message) e h = inl (inr (message, refl), h)

  -- For a collection with a unique index on the nullifier: after a relay that answered, either the
  -- insertion of the prepared withdrawal's row raised, and the collection is unchanged, or, after any
  -- further requests, on whatever chain, a request with the same nullifier text raises the conflict,
  -- gives nothing to the chain and changes nothing.
  pub relay_twice :
      (w w' : World S R) (fresh fresh' : Fresh) (q q' : Request) (answer : Response)
      (later : List Later) (chain' : Chain)
      → relay services w fresh q ≡ (w', ok answer)
      → q'.nullifier_hash ≡ q.nullifier_hash
      → ((p : Prepared) × (prepare services.keys services.settings services.chain
              (services.pick_best w.relayers q.token)
              (services.rows.find_one w.withdrawals q.nullifier_hash)
              q
            ≡ ok p)
          × Raised (services.rows.insert_one w.withdrawals (withdrawal fresh q p answer.signature))
          × (w'.withdrawals ≡ w.withdrawals))
        ⊎ (relay (before services chain') (relay_all services w' later) fresh' q' ≡ (
          relay_all services w' later,
          err (domain conflict (codes "Nullifier already spent.")),
        ))
  unfolding Succeeded withdrawal
  relay_twice w w' fresh fresh' q q' answer later chain' h same =
      let (p, is_p, _, _, _, _, rows) = relay-ok services w w' fresh q answer h in
      let row = withdrawal fresh q p answer.signature in
      elim (insert_cases w w' row _ refl rows) [
        | inl (bad, kept) ↦ inl (p, is_p, bad, kept)
        | inr found ↦ inr (
            relay-spent (before services chain') (relay_all services w' later) fresh' q' row
              (rw same (relay_all-stays later w' q.nullifier_hash row found)))
      ]
