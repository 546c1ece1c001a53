-- ===== src/Deposits/Race.antt =====
-- Two registrations of different commitments that overlap: both count the same rows.
use bagsvault.Base.{false, List, Option, none, Str, codes, ◌≡◌, ◌∙◌, eq_str, length, arith}
use bagsvault.Json.{Fields}
use bagsvault.Exceptions.{raised, duplicate_key, Result, ok, err, ◌>>=◌}
use bagsvault.Mongo.{inserted, duplicate}
use bagsvault.Deposits.{
  Commitment, Submission, Commitments, Fresh, confirmed, next_row, after_insert, insert_new,
  register_row, register_in,
}
use bagsvault.Deposits.Register.{after_duplicate-none, next_row-commitment}
use bagsvault.Deposits.Rows.{row_of, has_index, Laws}

module _ {S M : Type 0} (contents : S → List Commitment) (rows : Commitments S)
    (laws : Laws contents rows) (get_transaction : Str → Result (Option Fields))
    (sync_now : M → Result M) where
  refused_index :
      (s s' : S) (fresh fresh' : Fresh) (q q' : Submission)
      → rows.insert_one s (next_row fresh q (length (contents s))) ≡ inserted s'
      → rows.insert_one s' (next_row fresh' q' (length (contents s))) ≡ duplicate
  unfolding has_index next_row
  refused_index s s' fresh fresh' q q' e =
      laws.refuses s' (next_row fresh' q' (length (contents s))) (
        let (kept, _, _) = laws.inserts s s' (next_row fresh q (length (contents s))) e in
        rw kept (ground arith))

  unstored :
      (s s' : S) (fresh : Fresh) (q : Submission) (k : Str)
      → rows.insert_one s (next_row fresh q (length (contents s))) ≡ inserted s'
      → row_of (contents s) k ≡ none
      → eq_str q.commitment k ≡ false
      → row_of (contents s') k ≡ none
  unfolding row_of next_row
  unstored s s' fresh q k e free differ =
      let (kept, _, _) = laws.inserts s s' (next_row fresh q (length (contents s))) e in
      rw kept (rw differ free)

  -- If, between the count and the insertion of a registration whose commitment is new and whose
  -- transaction is confirmed, the insertion of another commitment with the same count takes place, then
  -- the registration ends in the driver's `DuplicateKeyError`, no error of the domain, and stores nothing.
  pub register_race :
      (s s' : S) (roots : M) (fresh fresh' : Fresh) (q q' : Submission) (u : Unit {0})
      → rows.insert_one s (next_row fresh q (length (contents s))) ≡ inserted s'
      → row_of (contents s) q'.commitment ≡ none
      → eq_str q.commitment q'.commitment ≡ false
      → (get_transaction q'.tx_signature >>= confirmed) ≡ ok u
      → register_in rows get_transaction sync_now
          (record { at_find = s; at_count = s; at_insert = s'; at_retry = s' })
          roots
          fresh'
          q'
        ≡ record {
          commitments = s';
          roots = roots;
          answer = err (raised duplicate_key (codes "E11000 duplicate key error"));
        }
  unfolding register_in register_row insert_new after_insert
  register_race s s' roots fresh fresh' q q' u e free differ good =
      rw (laws.finds s q'.commitment, free)
        (rw (good, laws.counts s)
          (rw (refused_index s s' fresh fresh' q q' e)
            (rw (after_duplicate-none contents rows laws get_transaction sync_now _ _ lost))))
    where
      lost : rows.find_one s' (next_row fresh' q' (length (contents s))).commitment ≡ none
      lost =
          laws.finds s' _
          ∙ rw
              (next_row-commitment contents rows laws get_transaction sync_now fresh' q'
                (length (contents s)))
              (unstored s s' fresh q q'.commitment e free differ)
