-- ===== src/Deposits/Register.antt =====
-- The ways in which a registration without interference can end.
pub mod Twice
use bagsvault.Base.{
  ℕ, zero, suc, Bool, true, false, List, [], ◌∷◌, Option, none, some, Str, codes, ◌≡◌, refl, sym,
  ◌∙◌, ap, ◌⊎◌, inl, inr, eq_str, eq_str_iff, eq_str_refl, Bool-cases, Option-cases, length,
  if◌then◌else◌, arith,
}
use bagsvault.Json.{Fields}
use bagsvault.Exceptions.{Exn, raised, duplicate_key, Result, ok, err, ◌>>=◌, Result-cases}
use bagsvault.Mongo.{Insert, inserted, duplicate, failed}
use bagsvault.Deposits.{
  Commitment, Submission, Commitments, Fresh, Seen, Outcome, other_signature, existing_row,
  confirmed, next_row, after_duplicate, after_insert, insert_new, register_row, register_in,
  register,
}
use bagsvault.Deposits.Rows.{row_of, has_index, Laws}

-- The state of the collection in a registration that nothing interrupts.
abbrev alone : {S : Type 0} → S → Seen S
alone s = record { at_find = s; at_count = s; at_insert = s; at_retry = s }

module _ {S M : Type 0} (contents : S → List Commitment) (rows : Commitments S)
    (laws : Laws contents rows) (get_transaction : Str → Result (Option Fields))
    (sync_now : M → Result M) where
  -- What a registration has done: nothing, or it has inserted the next row.
  pub Stored : S → M → Fresh → Submission → Outcome S M → Type 0
  Stored s roots fresh q o =
      ((u : Unit {0}) × ((get_transaction q.tx_signature >>= confirmed) ≡ ok u))
      × (row_of (contents s) q.commitment ≡ none)
      × (contents o.commitments ≡ next_row fresh q (length (contents s)) ∷ contents s)
      × (o.answer ≡ ok (next_row fresh q (length (contents s))))

  pub Unchanged : S → M → Outcome S M → Type 0
  Unchanged s roots o = (contents o.commitments ≡ contents s) × (o.roots ≡ roots)

  pub Known : S → Submission → Outcome S M → Type 0
  Known s q o =
      (row : Commitment) × (row_of (contents s) q.commitment ≡ some row)
      × (o.answer ≡ existing_row row q.tx_signature)

  pub Refused : Outcome S M → Type 0
  Refused o = (e : Exn) × (o.answer ≡ err e)

  pub after_duplicate-none :
      (o : Option Commitment) (tx_signature : Str)
      → o ≡ none
      → after_duplicate rows get_transaction sync_now o tx_signature
        ≡ err (raised duplicate_key (codes "E11000 duplicate key error"))
  unfolding after_duplicate
  after_duplicate-none none tx_signature h = refl
  after_duplicate-none (some row) tx_signature h = absurd (cc)

  after_insert-cases :
      (s : S) (roots : M) (row : Commitment) (i : Insert S)
      → row_of (contents s) row.commitment ≡ none
      → rows.insert_one s row ≡ i
      → let o = after_insert rows get_transaction sync_now (alone s) roots row i in
        ((contents o.commitments ≡ row ∷ contents s) × (o.answer ≡ ok row))
        ⊎ (Unchanged s roots o × Refused o)
  unfolding after_insert Unchanged Refused
  after_insert-cases s roots row (inserted s') free e = inl ((laws.inserts s s' row e).0, refl)
  after_insert-cases s roots row duplicate free e =
      inr ((refl, refl), (_, after_duplicate-none _ _ (laws.finds s row.commitment ∙ free)))
  after_insert-cases s roots row (failed message) free e = inr ((refl, refl), (_, refl))

  insert_new-counted :
      (s : S) (roots : M) (fresh : Fresh) (q : Submission) (u : Unit {0})
      → insert_new rows get_transaction sync_now (alone s) roots fresh q (ok u)
        ≡ after_insert rows get_transaction sync_now
            (alone s)
            roots
            (next_row fresh q (length (contents s)))
            (rows.insert_one s (next_row fresh q (length (contents s))))
  unfolding insert_new
  insert_new-counted s roots fresh q u = rw laws.counts

  pub next_row-commitment :
      (fresh : Fresh) (q : Submission) (n : ℕ) → (next_row fresh q n).commitment ≡ q.commitment
  unfolding next_row
  next_row-commitment fresh q n = refl

  insert_new-cases :
      (s : S) (roots : M) (fresh : Fresh) (q : Submission) (r : Result (Unit {0}))
      → row_of (contents s) q.commitment ≡ none
      → (get_transaction q.tx_signature >>= confirmed) ≡ r
      → let o = insert_new rows get_transaction sync_now (alone s) roots fresh q r in
        Stored s roots fresh q o ⊎ (Unchanged s roots o × Refused o)
  insert_new-cases s roots fresh q (err e) free h =
      inr (unfold insert_new Unchanged Refused in ((refl, refl), (e, refl)))
  insert_new-cases s roots fresh q (ok u) free h =
      rw (insert_new-counted s roots fresh q u)
        (elim (after_insert-cases s roots (next_row fresh q (length (contents s)))
          (rows.insert_one s (next_row fresh q (length (contents s)))) (rw next_row-commitment free)
          refl) [
            | inl (kept, answer) ↦ inl (unfold Stored in ((u, h), free, kept, answer))
            | inr refused ↦ inr refused
          ])

  register-new :
      (s : S) (roots : M) (fresh : Fresh) (q : Submission)
      → row_of (contents s) q.commitment ≡ none
      → register rows get_transaction sync_now s roots fresh q
        ≡ insert_new rows get_transaction sync_now
            (alone s)
            roots
            fresh
            q
            (get_transaction q.tx_signature >>= confirmed)
  unfolding register register_in register_row
  register-new s roots fresh q e = rw (laws.finds, e)

  pub register-known :
      (s : S) (roots : M) (fresh : Fresh) (q : Submission) (row : Commitment)
      → row_of (contents s) q.commitment ≡ some row
      → register rows get_transaction sync_now s roots fresh q
        ≡ record { commitments = s; roots = roots; answer = existing_row row q.tx_signature }
  unfolding register register_in register_row
  register-known s roots fresh q row e = rw (laws.finds, e)

  pub register-cases :
      (s : S) (roots : M) (fresh : Fresh) (q : Submission)
      → let o = register rows get_transaction sync_now s roots fresh q in
        Stored s roots fresh q o ⊎ (Unchanged s roots o × (Known s q o ⊎ Refused o))
  register-cases s roots fresh q = elim (Option-cases (row_of (contents s) q.commitment)) [
    | inl e ↦
        rw (register-new s roots fresh q e) (elim (insert_new-cases s roots fresh q _ e refl) [
          | inl stored ↦ inl stored
          | inr (kept, refused) ↦ inr (kept, inr refused)
        ])
    | inr (row, e) ↦
        rw (register-known s roots fresh q row e)
          (unfold Unchanged Known in inr ((refl, refl), inl (row, e, refl)))
  ]
