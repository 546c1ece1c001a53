-- ===== src/Deposits.antt =====
-- backend/app/services/deposit_service.py: a deposit transaction is confirmed and its row stored.
-- Every `await` is a point where another request may run, so a registration is given the state of the
-- collection at each of its calls of the database.
pub mod Rows
pub mod Register
pub mod Race
pub mod AnonymitySet
use bagsvault.Base.{
  ℕ, ◌+◌, Bool, false, List, [], ◌∷◌, ◌++◌, Option, none, some, Str, codes, eq_str, leb, length,
  take, last, remove_prefix, map, if◌then◌else◌,
}
use bagsvault.Json.{Json, Fields, get_field, as_obj, is_not_none}
use bagsvault.Exceptions.{
  Exn, domain, raised, conflict, not_found, validation, duplicate_key, other, Result, ok, err,
  ◌>>=◌,
}
use bagsvault.Mongo.{Insert, inserted, duplicate, failed}

pub record Commitment : Type 0 where
  pub id : Str
  pub commitment : Str
  pub merkle_index : ℕ
  pub amount : ℕ
  pub token : Str
  pub tx_signature : Str
  pub creator_wallet : Option Str
  pub created_at : ℕ

-- The arguments of `register`.
pub record Submission : Type 0 where
  pub commitment : Str
  pub amount : ℕ
  pub token : Str
  pub tx_signature : Str
  pub creator_wallet : Option Str

-- The driver's operations on `db.commitments`.
pub record Commitments (S : Type 0) : Type 0 where
  pub find_one : S → Str → Option Commitment
  pub count_documents : S → ℕ
  pub insert_one : S → Commitment → Insert S

-- The values that the defaults of `Commitment` make up.
pub record Fresh : Type 0 where
  pub id : Str
  pub now : ℕ

-- The state of the collection at the first look-up, at the count, at the insertion and after it.
pub record Seen (S : Type 0) : Type 0 where
  pub at_find : S
  pub at_count : S
  pub at_insert : S
  pub at_retry : S

abbrev pub other_signature : Exn
other_signature =
    domain conflict (codes "Commitment already recorded with a different transaction signature.")

-- An existing row answers for the same signature only.
unfoldable pub existing_row : Commitment → Str → Result Commitment
existing_row row tx_signature =
    if eq_str row.tx_signature tx_signature then ok row else err other_signature

-- meta.get("err") is not None, where `meta` is a dict
has_error : Option Fields → Bool
unfolding get_field
has_error none = false
has_error (some meta) = is_not_none (get_field (codes "err") meta)

-- step 2
unfoldable pub confirmed : Option Fields → Result (Unit {0})
unfolding has_error get_field
confirmed none = err (domain not_found (codes "Transaction not yet confirmed on chain."))
confirmed (some tx) =
    if has_error (as_obj (get_field (codes "meta") tx))
    then err (domain validation (codes "Deposit transaction failed on chain."))
    else ok tt

-- step 3: the row with the next index
unfoldable pub next_row : Fresh → Submission → ℕ → Commitment
next_row fresh q merkle_index = record {
  id = fresh.id;
  commitment = q.commitment;
  merkle_index = merkle_index;
  amount = q.amount;
  token = q.token;
  tx_signature = q.tx_signature;
  creator_wallet = q.creator_wallet;
  created_at = fresh.now;
}

-- What a registration leaves: `db.commitments`, `db.merkle_roots`, and the answer.
pub record Outcome (S M : Type 0) : Type 0 where
  pub commitments : S
  pub roots : M
  pub answer : Result Commitment

module _ {S M : Type 0} (rows : Commitments S) (get_transaction : Str → Result (Option Fields))
    (sync_now : M → Result M) where
  unfoldable pub after_duplicate : Option Commitment → Str → Result Commitment
  unfolding existing_row
  after_duplicate none tx_signature =
      err (raised duplicate_key (codes "E11000 duplicate key error"))
  after_duplicate (some row) tx_signature = existing_row row tx_signature

  -- step 4: an exception of the indexer is logged
  kicked : M → Result M → M
  kicked roots (ok roots') = roots'
  kicked roots (err e) = roots

  unfoldable pub after_insert : Seen S → M → Commitment → Insert S → Outcome S M
  unfolding after_duplicate kicked
  after_insert seen roots row (inserted s) = record {
    commitments = s;
    roots = kicked roots (sync_now roots);
    answer = ok row;
  }
  after_insert seen roots row duplicate = record {
    commitments = seen.at_insert;
    roots = roots;
    answer = after_duplicate (rows.find_one seen.at_retry row.commitment) row.tx_signature;
  }
  after_insert seen roots row (failed message) = record {
    commitments = seen.at_insert;
    roots = roots;
    answer = err (raised other message);
  }

  unfoldable pub insert_new : Seen S → M → Fresh → Submission → Result (Unit {0}) → Outcome S M
  insert_new seen roots fresh q (err e) = record {
    commitments = seen.at_insert;
    roots = roots;
    answer = err e;
  }
  insert_new seen roots fresh q (ok u) =
      let row = next_row fresh q (rows.count_documents seen.at_count) in
      after_insert seen roots row (rows.insert_one seen.at_insert row)

  unfoldable pub register_row : Seen S → M → Fresh → Submission → Option Commitment → Outcome S M
  register_row seen roots fresh q (some row) = record {
    commitments = seen.at_insert;
    roots = roots;
    answer = existing_row row q.tx_signature;
  }
  register_row seen roots fresh q none =
      insert_new seen roots fresh q (get_transaction q.tx_signature >>= confirmed)

  unfoldable pub register_in : Seen S → M → Fresh → Submission → Outcome S M
  register_in seen roots fresh q =
      register_row seen roots fresh q (rows.find_one seen.at_find q.commitment)

  -- `register` where no other request runs in between
  unfoldable pub register : S → M → Fresh → Submission → Outcome S M
  register s roots fresh q =
      register_in (record { at_find = s; at_count = s; at_insert = s; at_retry = s }) roots fresh q

-- `_shorten`
unfoldable pub shorten : Str → Str
shorten commitment =
    let clean = remove_prefix (codes "0x") commitment in
    if leb (length clean) (4 + 4) then clean else take 4 clean ++ (codes "…" ++ last 4 clean)

-- An entry of `list_recent`.
pub record RecentDeposit : Type 0 where
  pub commitment_hash_short : Str
  pub amount : ℕ
  pub token : Str
  pub merkle_index : ℕ
  pub indexed_at : ℕ

anonymized : Commitment → RecentDeposit
unfolding shorten
anonymized row = record {
  commitment_hash_short = shorten row.commitment;
  amount = row.amount;
  token = row.token;
  merkle_index = row.merkle_index;
  indexed_at = row.created_at;
}

-- `list_recent`, on the rows as the cursor gives them: newest first
unfoldable pub list_recent : ℕ → List Commitment → List RecentDeposit
unfolding anonymized
list_recent limit newest_first = map anonymized (take limit newest_first)
