-- ===== src/Indexer/Sync.antt =====
-- What a run of the indexer leaves in `db.merkle_roots`.
use bagsvault.Base.{
  ℕ, Option, none, some, Str, ◌≡◌, ◌≢◌, ◌⊎◌, refl, sym, ◌∙◌, ap, inl, inr, eq_str_refl, is_empty,
  Bool-cases,
}
use bagsvault.Json.{Json, Fields}
use bagsvault.Exceptions.{Exn, Result, ok, err}
use bagsvault.Mongo.{Insert, inserted, duplicate, failed, Laws}
use bagsvault.Solana.Instruction.{Pubkey}
use bagsvault.Indexer.{
  MerkleRoot, State, Sources, root_row, or_row, recorded, store_state, store_decoded, from_b64,
  record_from_account, from_account, at_pda, sync_now,
}

abbrev pub root_of : MerkleRoot → Str
root_of row = row.root

-- The unique index on `root`: a duplicate is one of a row that is there, and such a row is refused.
pub record Unique {M : Type 0} (sources : Sources M) : Type 0 where
  pub laws : Laws root_of sources.merkle_roots
  pub refuses :
      (m : M) (row existing : MerkleRoot)
      → sources.merkle_roots.find_one m row.root ≡ some existing
      → sources.merkle_roots.insert_one m row ≡ duplicate
  pub is_there :
      (m : M) (row : MerkleRoot)
      → sources.merkle_roots.insert_one m row ≡ duplicate
      → (existing : MerkleRoot) × (sources.merkle_roots.find_one m row.root ≡ some existing)

module _ {M : Type 0} (sources : Sources M) where
  abbrev Step : Type 0
  Step = ℕ → M → M × Result (Option MerkleRoot)

  -- What the roots and the time do not decide: whether a row is stored, and the state that it is of.
  Shape : Step → Type 0
  Shape step =
      ((r : Result (Option MerkleRoot)) × ((row : MerkleRoot) → r ≢ ok (some row))
        × ((now : ℕ) (m : M) → step now m ≡ (m, r)))
      ⊎ ((rent : Option Json) × (st : State) × ((now : ℕ) (m : M)
            → step now m ≡ store_state sources now m rent (some st)))

  failed-Shape : (e : Exn) → Shape (λ now m. (m, err e))
  unfolding Shape
  failed-Shape e = inl (err e, (λ row h. absurd (cc)), λ now m. refl)

  idle-Shape : Shape (λ now m. (m, ok none))
  unfolding Shape
  idle-Shape = inl (ok none, (λ row h. absurd (cc)), λ now m. refl)

  store_state-Shape :
      (rent : Option Json) (st : Option State) → Shape (λ now m. store_state sources now m rent st)
  unfolding store_state
  store_state-Shape rent none = idle-Shape
  store_state-Shape rent (some st) = unfold Shape in inr (rent, st, λ now m. refl)

  store_decoded-Shape :
      (rent : Option Json) (r : Result (Option State))
      → Shape (λ now m. store_decoded sources now m rent r)
  unfolding store_decoded
  store_decoded-Shape rent (err e) = failed-Shape e
  store_decoded-Shape rent (ok st) = store_state-Shape rent st

  from_b64-Shape :
      (rent : Option Json) (b64 : Option Str) → Shape (λ now m. from_b64 sources now m rent b64)
  unfolding from_b64
  from_b64-Shape rent none = idle-Shape
  from_b64-Shape rent (some b64) = store_decoded-Shape rent _

  from_account-Shape : (r : Result (Option Fields)) → Shape (λ now m. from_account sources now m r)
  unfolding from_account record_from_account
  from_account-Shape (err e) = failed-Shape e
  from_account-Shape (ok none) = idle-Shape
  from_account-Shape (ok (some account)) = from_b64-Shape _ _

  at_pda-Shape : (pda : Option Pubkey) → Shape (λ now m. at_pda sources now m pda)
  unfolding at_pda
  at_pda-Shape none = idle-Shape
  at_pda-Shape (some pda) = from_account-Shape (sources.get_account_info pda)

  sync_now-Shape : Shape (λ now m. sync_now sources now m)
  unfolding sync_now
  sync_now-Shape = elim (Bool-cases (is_empty sources.bagsvault_program_id)) [
    | inl e ↦ rw e idle-Shape
    | inr e ↦ rw e (at_pda-Shape _)
  ]

  module _ (unique : Unique sources) where
    -- The row that is given is found under its root.
    pub recorded-found :
        (m m' : M) (new row : MerkleRoot) (i : Insert M)
        → sources.merkle_roots.insert_one m new ≡ i
        → recorded sources m new i ≡ (m', ok (some row))
        → sources.merkle_roots.find_one m' new.root ≡ some row
    unfolding recorded or_row
    recorded-found m m' new row (inserted s) e h =
        let same : new ≡ row = cc in
        let kept : s ≡ m' = cc in
        rw (← kept)
          (unique.laws.find-insert m s new new.root e ∙ rw (eq_str_refl new.root) (ap some same))
    recorded-found m m' new row duplicate e h =
        let (existing, found) = unique.is_there m new e in
        let kept : m ≡ m' = cc in
        let h' = rw found at h in
        let same : existing ≡ row = cc in rw (← kept) (found ∙ ap some same)
    recorded-found m m' new row (failed message) e h = absurd (cc)

    stored-again :
        (m m' : M) (now now' : ℕ) (rent : Option Json) (st : State) (row : MerkleRoot)
        → store_state sources now m rent (some st) ≡ (m', ok (some row))
        → store_state sources now' m' rent (some st) ≡ (m', ok (some row))
    unfolding store_state recorded or_row root_row
    stored-again m m' now now' rent st row h =
        rw (unique.refuses m' (root_row now' rent st) row found) (rw found)
      where
        found : sources.merkle_roots.find_one m' st.root_hex ≡ some row
        found = recorded-found m m' (root_row now rent st) row _ refl h

    -- With the unique index on the root: if a synchronisation gives a row, then synchronising again at a
    -- later time, while the account has not changed, gives the same row and stores nothing.
    pub sync_now_twice :
        (m m' : M) (now now' : ℕ) (row : MerkleRoot)
        → sync_now sources now m ≡ (m', ok (some row))
        → sync_now sources now' m' ≡ (m', ok (some row))
    unfolding Shape
    sync_now_twice m m' now now' row h = elim sync_now-Shape [
      | inl (r, never, is) ↦ absurd (never row (ap (λ p. p.1) (sym (is now m) ∙ h)))
      | inr (rent, st, is) ↦
          is now' m' ∙ stored-again m m' now now' rent st row (sym (is now m) ∙ h)
    ]
