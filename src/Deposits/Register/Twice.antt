-- ===== src/Deposits/Register/Twice.antt =====
-- Idempotency, conflicts, and the numbering of the rows, for registrations that nothing interrupts.
use bagsvault.Base.{
  ℕ, false, List, [], ◌∷◌, Option, some, Str, ◌≡◌, refl, sym, ◌∙◌, ap, subst, inl, inr, eq_str,
  eq_str_refl, length, Bool-cases,
}
use bagsvault.Json.{Fields}
use bagsvault.Exceptions.{Result, ok, err}
use bagsvault.Deposits.{
  Commitment, Submission, Commitments, Fresh, Outcome, other_signature, existing_row, next_row,
  register,
}
use bagsvault.Deposits.Rows.{row_of, Laws}
use bagsvault.Deposits.Register.{Stored, Unchanged, Known, Refused, register-cases, register-known}

-- The rows are numbered in the order in which they were inserted; the newest is first.
abbrev pub IsNumbered : List Commitment → Type 0
IsNumbered [] = Unit
IsNumbered (r ∷ rs) = (r.merkle_index ≡ length rs) × IsNumbered rs

row_of-head :
    (fresh : Fresh) (q : Submission) (n : ℕ) (rs : List Commitment)
    → row_of (next_row fresh q n ∷ rs) q.commitment ≡ some (next_row fresh q n)
unfolding row_of next_row
row_of-head fresh q n rs = rw (eq_str_refl q.commitment)

existing-next_row :
    (fresh : Fresh) (q : Submission) (n : ℕ)
    → existing_row (next_row fresh q n) q.tx_signature ≡ ok (next_row fresh q n)
unfolding existing_row next_row
existing-next_row fresh q n = rw (eq_str_refl q.tx_signature)

existing-ok :
    (row : Commitment) (signature : Str) (r : Commitment)
    → existing_row row signature ≡ ok r
    → r ≡ row
unfolding existing_row
existing-ok row signature r h = elim (Bool-cases (eq_str row.tx_signature signature)) [
  | inl e ↦ let g : ok row ≡ ok r = rw e at h in cc
  | inr e ↦ let g : err other_signature ≡ ok r = rw e at h in absurd (cc)
]

module _ {S M : Type 0} (contents : S → List Commitment) (rows : Commitments S)
    (laws : Laws contents rows) (get_transaction : Str → Result (Option Fields))
    (sync_now : M → Result M) where
  abbrev run : S → M → Fresh → Submission → Outcome S M
  run s roots fresh q = register rows get_transaction sync_now s roots fresh q

  -- The row that an answer names is the one that is found afterwards, and it answers again.
  answered :
      (s : S) (roots : M) (fresh : Fresh) (q : Submission) (row : Commitment)
      → (run s roots fresh q).answer ≡ ok row
      → (row_of (contents (run s roots fresh q).commitments) q.commitment ≡ some row)
        × (existing_row row q.tx_signature ≡ ok row)
  unfolding Stored Unchanged Known Refused
  answered s roots fresh q row h =
      elim (register-cases contents rows laws get_transaction sync_now s roots fresh q) [
        | inl (_, _, kept, answer) ↦
            let same : row ≡ next_row fresh q (length (contents s)) = cc in
            (rw (kept, same) (row_of-head fresh q _ _), rw same (existing-next_row fresh q _))
        | inr ((kept, _), inl (found, e, answer)) ↦
            let given : existing_row found q.tx_signature ≡ ok row = sym answer ∙ h in
            let same = existing-ok found q.tx_signature row given in
            (
              rw (kept, e) (ap some (sym same)),
              ap (λ r. existing_row r q.tx_signature) same ∙ given,
            )
        | inr (_, inr (e, answer)) ↦ absurd (cc)
      ]

  -- Where nothing interrupts them, registering a submission again after an answer gives the same row
  -- and changes neither the commitments nor the roots.
  pub register_twice :
      (s : S) (roots : M) (fresh fresh' : Fresh) (q : Submission) (row : Commitment)
      → (run s roots fresh q).answer ≡ ok row
      → let o = run s roots fresh q in
        run o.commitments o.roots fresh' q
        ≡ record { commitments = o.commitments; roots = o.roots; answer = ok row }
  register_twice s roots fresh fresh' q row h =
      let o = run s roots fresh q in
      let (found, again) = answered s roots fresh q row h in
      register-known contents rows laws get_transaction sync_now o.commitments o.roots fresh' q row
        found
      ∙ rw again

  -- A registration that nothing interrupts keeps the numbering: if the rows bear the numbers from 0 in
  -- the order of insertion before it, they do after it, whatever it answers.
  pub register-IsNumbered :
      (s : S) (roots : M) (fresh : Fresh) (q : Submission)
      → IsNumbered (contents s)
      → IsNumbered (contents (run s roots fresh q).commitments)
  unfolding Stored Unchanged next_row
  register-IsNumbered s roots fresh q numbered =
      elim (register-cases contents rows laws get_transaction sync_now s roots fresh q) [
        | inl (_, _, kept, _) ↦ subst IsNumbered (sym kept) (refl, numbered)
        | inr ((kept, _), _) ↦ subst IsNumbered (sym kept) numbered
      ]

  -- A row for the commitment with another signature: the registration ends in the conflict, and
  -- changes neither the commitments nor the roots.
  pub register-conflict :
      (s : S) (roots : M) (fresh : Fresh) (q : Submission) (row : Commitment)
      → row_of (contents s) q.commitment ≡ some row
      → eq_str row.tx_signature q.tx_signature ≡ false
      → run s roots fresh q
        ≡ record { commitments = s; roots = roots; answer = err other_signature }
  unfolding existing_row
  register-conflict s roots fresh q row found differ =
      register-known contents rows laws get_transaction sync_now s roots fresh q row found
      ∙ rw differ
