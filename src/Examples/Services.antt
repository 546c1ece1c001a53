-- ===== src/Examples/Services.antt =====
-- Deposits.
use bagsvault.Base.{ℕ, suc, false, List, [], ◌∷◌, Option, none, some, Str, codes, ◌≡◌, refl, eq_str}
use bagsvault.Json.{Fields, end}
use bagsvault.Exceptions.{raised, duplicate_key, Result, ok, err, ◌>>=◌}
use bagsvault.Mongo.{inserted}
use bagsvault.Deposits.{
  Commitment, Submission, Fresh, Outcome, confirmed, next_row, register, register_in,
}
use bagsvault.Deposits.Rows.{row_of, insert_row, same_rows}
use bagsvault.Deposits.Register.Twice.{IsNumbered, register_twice, register-IsNumbered}
use bagsvault.Deposits.Race.{register_race}

abbrev submission : Submission
submission = record {
  commitment = codes "c";
  amount = 7;
  token = codes "SOL";
  tx_signature = codes "s";
  creator_wallet = none;
}

abbrev other : Submission
other = record submission { commitment = codes "d"; tx_signature = codes "t" }

abbrev made : Fresh
made = record { id = []; now = 1 }

get_transaction : Str → Result (Option Fields)
get_transaction s = ok (some end)

abbrev sync : ℕ → Result ℕ
sync n = ok (suc n)

abbrev first_row : Commitment
first_row = next_row made submission 0

abbrev registered : Outcome (List Commitment) ℕ
registered = register bagsvault.Deposits.Rows.table get_transaction sync [] 0 made submission

is_registered : registered.answer ≡ ok first_row
unfolding register register_in bagsvault.Deposits.register_row row_of bagsvault.Deposits.insert_new
    get_transaction confirmed bagsvault.Deposits.after_insert insert_row
    bagsvault.Deposits.Rows.has_index
is_registered = refl

register_twice_example :
    register bagsvault.Deposits.Rows.table get_transaction sync registered.commitments
      registered.roots made submission
    ≡ record {
      commitments = registered.commitments;
      roots = registered.roots;
      answer = ok first_row;
    }
register_twice_example =
    register_twice same_rows bagsvault.Deposits.Rows.table bagsvault.Deposits.Rows.table-Laws
      get_transaction sync [] 0 made made submission first_row is_registered

register-IsNumbered_example : IsNumbered registered.commitments
register-IsNumbered_example =
    register-IsNumbered same_rows bagsvault.Deposits.Rows.table bagsvault.Deposits.Rows.table-Laws
      get_transaction sync [] 0 made submission tt

is_inserted : insert_row [] first_row ≡ inserted (first_row ∷ [])
unfolding insert_row row_of bagsvault.Deposits.Rows.has_index
is_inserted = refl

is_confirmed : (get_transaction other.tx_signature >>= confirmed) ≡ ok tt
unfolding get_transaction confirmed
is_confirmed = refl

differ : eq_str submission.commitment other.commitment ≡ false
unfolding eq_str
differ = refl

unknown : row_of [] other.commitment ≡ none
unfolding row_of
unknown = refl

register_race_example :
    register_in bagsvault.Deposits.Rows.table get_transaction sync
      (record {
        at_find = [];
        at_count = [];
        at_insert = first_row ∷ [];
        at_retry = first_row ∷ [];
      })
      0
      made
      other
    ≡ record {
      commitments = first_row ∷ [];
      roots = 0;
      answer = err (raised duplicate_key (codes "E11000 duplicate key error"));
    }
register_race_example =
    register_race same_rows bagsvault.Deposits.Rows.table bagsvault.Deposits.Rows.table-Laws
      get_transaction sync [] (first_row ∷ []) 0 made made submission other tt is_inserted unknown
      differ is_confirmed
