-- ===== src/Deposits/Rows.antt =====
-- What MongoDB documents of the operations that deposits use: two unique indexes, on the commitment and
-- on the Merkle index, over the rows of the collection.
use bagsvault.Base.{
  ℕ, Bool, true, false, ◌||◌, List, [], ◌∷◌, Option, none, some, Str, ◌≡◌, refl, eq_str, ◌==◌,
  length, if◌then◌else◌,
}
use bagsvault.Mongo.{Insert, inserted, duplicate}
use bagsvault.Deposits.{Commitment, Commitments}

-- The row with a commitment.
unfoldable pub row_of : List Commitment → Str → Option Commitment
row_of [] k = none
row_of (r ∷ rs) k = if eq_str r.commitment k then some r else row_of rs k

unfoldable pub has_index : List Commitment → ℕ → Bool
has_index [] i = false
has_index (r ∷ rs) i = (r.merkle_index == i) || has_index rs i

pub record Laws {S : Type 0} (contents : S → List Commitment) (c : Commitments S) : Type 0 where
  pub finds : (s : S) (k : Str) → c.find_one s k ≡ row_of (contents s) k
  pub counts : (s : S) → c.count_documents s ≡ length (contents s)
  -- an insertion adds the row; the unique indexes have neither of its keys before
  pub inserts :
      (s s' : S) (r : Commitment)
      → c.insert_one s r ≡ inserted s'
      → (contents s' ≡ r ∷ contents s)
        × (row_of (contents s) r.commitment ≡ none)
        × (has_index (contents s) r.merkle_index ≡ false)
  -- a taken index is refused
  pub refuses :
      (s : S) (r : Commitment)
      → has_index (contents s) r.merkle_index ≡ true
      → c.insert_one s r ≡ duplicate

-- The collection as a list: the laws can be met.
put : List Commitment → Commitment → Option Commitment → Bool → Insert (List Commitment)
put rs r none false = inserted (r ∷ rs)
put rs r none true = duplicate
put rs r (some _) taken = duplicate

unfoldable pub insert_row : List Commitment → Commitment → Insert (List Commitment)
unfolding put
insert_row rs r = put rs r (row_of rs r.commitment) (has_index rs r.merkle_index)

abbrev pub table : Commitments (List Commitment)
table = record { find_one = row_of; count_documents = length; insert_one = insert_row }

put-inserted :
    (rs s' : List Commitment) (r : Commitment) (o : Option Commitment) (taken : Bool)
    → put rs r o taken ≡ inserted s'
    → (s' ≡ r ∷ rs) × (o ≡ none) × (taken ≡ false)
unfolding put
put-inserted rs s' r none false h = (cc, refl, refl)
put-inserted rs s' r none true h = absurd (cc)
put-inserted rs s' r (some x) taken h = absurd (cc)

put-taken :
    (rs : List Commitment) (r : Commitment) (o : Option Commitment) → put rs r o true ≡ duplicate
unfolding put
put-taken rs r none = refl
put-taken rs r (some x) = refl

abbrev pub same_rows : List Commitment → List Commitment
same_rows rs = rs

pub table-Laws : Laws same_rows table
unfolding insert_row
table-Laws = record {
  finds = λ s k. refl;
  counts = λ s. refl;
  inserts = λ s s' r h. put-inserted s s' r (row_of s r.commitment) (has_index s r.merkle_index) h;
  refuses = λ s r h. rw h (put-taken s r (row_of s r.commitment));
}
