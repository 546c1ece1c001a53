-- ===== src/Withdraw/Relay/Guard.antt =====
-- What `relay` promises: the guard against a second withdrawal, and what a success or an error means.
use bagsvault.Base.{◌∷◌, Option, none, some, Str, codes, ◌≡◌, refl, ap}
use bagsvault.Exceptions.{Exn, domain, conflict, Result, ok, err}
use bagsvault.Withdraw.Relay.{Request, Withdrawal, Response, Prepared, broadcast, unspent, prepare}
use bagsvault.Withdraw.Relay.Pipeline.{
  World, Services, Fresh, withdrawal, persisted, finish, handed, proceed, relay,
}

abbrev pub nullifier_of : Withdrawal → Str
nullifier_of row = row.nullifier_hash

module _ {S R : Type 0} (services : Services S R) where
  -- Preparing a withdrawal whose row is there ends in a conflict.
  prepare-spent :
      (picked : _) (row : Withdrawal) (q : Request)
      → prepare services.keys services.settings services.chain picked (some row) q
        ≡ err (domain conflict (codes "Nullifier already spent."))
  unfolding prepare unspent
  prepare-spent picked row q = refl

  -- If a row with the request's nullifier text is stored, relay raises the conflict, gives no
  -- instruction to the chain and changes neither collection.
  pub relay-spent :
      (w : World S R) (fresh : Fresh) (q : Request) (row : Withdrawal)
      → services.rows.find_one w.withdrawals q.nullifier_hash ≡ some row
      → relay services w fresh q ≡ (w, err (domain conflict (codes "Nullifier already spent.")))
  unfolding relay proceed
  relay-spent w fresh q row found = rw (found, prepare-spent)

  unfoldable pub Succeeded : World S R → Fresh → Request → World S R → Response → Type 0
  Succeeded w fresh q w' answer =
      (p : Prepared) × (prepare services.keys services.settings services.chain
          (services.pick_best w.relayers q.token)
          (services.rows.find_one w.withdrawals q.nullifier_hash) q
        ≡ ok p)
      × (services.rows.find_one w.withdrawals q.nullifier_hash ≡ none)
      × (w'.submitted ≡ p.ix ∷ w.submitted)
      × (broadcast services.chain p.ix p.payer ≡ ok answer.signature)
      × (answer.fee_bps ≡ p.active_fee_bps)
      × (w'.withdrawals
          ≡ persisted services
              (services.rows.insert_one w.withdrawals (withdrawal fresh q p answer.signature))
              w.withdrawals)

  -- A preparation that ends found no row.
  prepare-ok :
      (picked : Result _) (existing : Option Withdrawal) (q : Request) (p : Prepared)
      → prepare services.keys services.settings services.chain picked existing q ≡ ok p
      → existing ≡ none
  unfolding prepare unspent
  prepare-ok picked none q p h = refl
  prepare-ok picked (some row) q p h = absurd (cc)

  finish-ok :
      (w w' : World S R) (fresh : Fresh) (q : Request) (p : Prepared) (answer : Response)
      (sent : Result Str)
      → finish services w fresh q p sent ≡ (w', ok answer)
      → (sent ≡ ok answer.signature)
        × (answer.fee_bps ≡ p.active_fee_bps)
        × (w'.submitted ≡ w.submitted)
        × (w'.withdrawals
            ≡ persisted services
                (services.rows.insert_one w.withdrawals (withdrawal fresh q p answer.signature))
                w.withdrawals)
  unfolding finish
  finish-ok w w' fresh q p answer (ok signature) h =
      let same : signature ≡ answer.signature = cc in
      let kept : w'.submitted ≡ w.submitted = cc in
      let rows : w'.withdrawals
          ≡ persisted services
              (services.rows.insert_one w.withdrawals (withdrawal fresh q p signature))
              w.withdrawals =
        cc in
      let fee : answer.fee_bps ≡ p.active_fee_bps = cc in (cc, fee, kept, rw (← same) rows)
  finish-ok w w' fresh q p answer (err e) h = absurd (cc)

  proceed-ok :
      (w w' : World S R) (fresh : Fresh) (q : Request) (answer : Response) (r : Result Prepared)
      → prepare services.keys services.settings services.chain
          (services.pick_best w.relayers q.token)
          (services.rows.find_one w.withdrawals q.nullifier_hash)
          q
        ≡ r
      → proceed services w fresh q r ≡ (w', ok answer)
      → Succeeded w fresh q w' answer
  unfolding proceed Succeeded handed
  proceed-ok w w' fresh q answer (err e) x h = absurd (cc)
  proceed-ok w w' fresh q answer (ok p) e h =
      let (sent, fee, kept, rows) = finish-ok (handed services w p.ix) w' fresh q p answer _ h in
      (p, e, prepare-ok _ _ q p e, kept, sent, fee, rows)

  -- If relay answers, then preparing the request returned an instruction, no row with the request's
  -- nullifier text was stored, exactly one instruction, the prepared one, was given to the chain, its
  -- broadcast returned the answer's signature, the answer names the prepared fee, and the collection is
  -- the old one with the withdrawal's row inserted or, where the insertion raised, the old one.
  pub relay-ok :
      (w w' : World S R) (fresh : Fresh) (q : Request) (answer : Response)
      → relay services w fresh q ≡ (w', ok answer)
      → Succeeded w fresh q w' answer
  unfolding relay
  relay-ok w w' fresh q answer h = proceed-ok w w' fresh q answer _ refl h

  finish-err :
      (v v' : World S R) (fresh : Fresh) (q : Request) (p : Prepared) (sent : Result Str) (x : Exn)
      → finish services v fresh q p sent ≡ (v', err x)
      → v' ≡ v
  unfolding finish
  finish-err v v' fresh q p (ok signature) x g = absurd (cc)
  finish-err v v' fresh q p (err y) x g = cc

  proceed-err :
      (v v' : World S R) (fresh : Fresh) (q : Request) (e : Exn) (r : Result Prepared)
      → proceed services v fresh q r ≡ (v', err e)
      → (v'.withdrawals ≡ v.withdrawals) × (v'.relayers ≡ v.relayers)
  unfolding proceed handed
  proceed-err v v' fresh q e (err y) g =
      let same : v' ≡ v = cc in
      (ap (λ (x : World S R). x.withdrawals) same, ap (λ (x : World S R). x.relayers) same)
  proceed-err v v' fresh q e (ok p) g =
      let same = finish-err (handed services v p.ix) v' fresh q p _ e g in
      (ap (λ (x : World S R). x.withdrawals) same, ap (λ (x : World S R). x.relayers) same)

  -- If relay raises, at whatever step, both collections are as they were.
  pub relay-err :
      (w w' : World S R) (fresh : Fresh) (q : Request) (e : Exn)
      → relay services w fresh q ≡ (w', err e)
      → (w'.withdrawals ≡ w.withdrawals) × (w'.relayers ≡ w.relayers)
  unfolding relay
  relay-err w w' fresh q e h = proceed-err w w' fresh q e _ h
