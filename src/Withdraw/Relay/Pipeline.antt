-- ===== src/Withdraw/Relay/Pipeline.antt =====
-- The whole of `WithdrawalService.relay`: the guard's look-up, the preparation, the broadcast, and the
-- two writes after it, which are tried and whose failure does not reach the caller.
use bagsvault.Base.{ℕ, List, ◌∷◌, Option, none, some, Str, codes}
use bagsvault.Exceptions.{Result, ok, err}
use bagsvault.Mongo.{Insert, inserted, duplicate, failed, Collection}
use bagsvault.Solana.Instruction.{Instruction}
use bagsvault.Solana.Keys.{Keys}
use bagsvault.Withdraw.Relay.{
  Request, Withdrawal, Settings, Picked, Chain, Response, broadcast, Prepared, prepare,
}

-- `withdrawals` and `relayers`, and every instruction that was given to the chain, newest first.
pub record World (S R : Type 0) : Type 0 where
  pub withdrawals : S
  pub relayers : R
  pub submitted : List Instruction

-- The services and the driver: what they answer is not decided here.
pub record Services (S R : Type 0) : Type 0 where
  pub keys : Keys
  pub settings : Settings
  pub chain : Chain
  pub rows : Collection S Withdrawal
  pub pick_best : R → Str → Result Picked
  -- none: the update raised
  pub update_last_seen : R → Str → ℕ → Option R

-- The values that the defaults of `Withdrawal` make up: a new id, and the time.
pub record Fresh : Type 0 where
  pub id : Str
  pub now : ℕ

unfoldable pub withdrawal : Fresh → Request → Prepared → Str → Withdrawal
withdrawal fresh q p signature = record {
  id = fresh.id;
  nullifier_hash = q.nullifier_hash;
  recipient = q.recipient;
  amount = q.amount;
  token = q.token;
  relayer_id = p.relayer_id;
  tx_signature = signature;
  created_at = fresh.now;
}

module _ {S R : Type 0} (services : Services S R) where
  -- an exception of the insertion is logged
  unfoldable pub persisted : Insert S → S → S
  persisted (inserted s') s = s'
  persisted duplicate s = s
  persisted (failed message) s = s

  touched : Option R → R → R
  touched none r = r
  touched (some r') r = r'

  unfoldable pub finish :
      World S R → Fresh → Request → Prepared → Result Str → World S R × Result Response
  unfolding persisted withdrawal touched
  finish w fresh q p (err e) = (w, err e)
  finish w fresh q p (ok signature) =
      let row = withdrawal fresh q p signature in
      let s = persisted (services.rows.insert_one w.withdrawals row) w.withdrawals in
      let r = touched (services.update_last_seen w.relayers p.relayer_id fresh.now) w.relayers in
      (
        record { withdrawals = s; relayers = r; submitted = w.submitted },
        ok (record {
          signature = signature;
          status = codes "submitted";
          fee_bps = p.active_fee_bps;
        }),
      )

  unfoldable pub handed : World S R → Instruction → World S R
  handed w ix = record {
    withdrawals = w.withdrawals;
    relayers = w.relayers;
    submitted = ix ∷ w.submitted;
  }

  unfoldable pub proceed :
      World S R → Fresh → Request → Result Prepared → World S R × Result Response
  unfolding handed
  proceed w fresh q (err e) = (w, err e)
  proceed w fresh q (ok p) =
      finish (handed w p.ix) fresh q p (broadcast services.chain p.ix p.payer)

  unfoldable pub relay : World S R → Fresh → Request → World S R × Result Response
  relay w fresh q = proceed w fresh q (
      prepare services.keys services.settings services.chain (services.pick_best w.relayers q.token)
        (services.rows.find_one w.withdrawals q.nullifier_hash) q)
