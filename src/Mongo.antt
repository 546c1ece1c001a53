-- ===== src/Mongo.antt =====
-- What the services use of a MongoDB collection with a unique index on one text field. The driver is
-- not part of the program: its operations are arguments, and what it documents of them is `Laws`.
pub mod Table
pub mod Upserts
use bagsvault.Base.{Str, ◌≡◌, Option, none, some, eq_str, if◌then◌else◌}

-- `insert_one`: the new state of the collection, `DuplicateKeyError`, or another exception.
pub data Insert (S : Type 0) : Type 0 where
  inserted : S → Insert S
  duplicate : Insert S
  failed : Str → Insert S

pub record Collection (S Doc : Type 0) : Type 0 where
  pub find_one : S → Str → Option Doc
  pub insert_one : S → Doc → Insert S

pub record Laws {S Doc : Type 0} (key : Doc → Str) (c : Collection S Doc) : Type 0 where
  -- an inserted document is found under its key, and nothing else changes
  pub find-insert :
      (s s' : S) (d : Doc) (k : Str)
      → c.insert_one s d ≡ inserted s'
      → c.find_one s' k ≡ (if eq_str (key d) k then some d else c.find_one s k)
  -- the unique index: a key that is there is not inserted again
  pub insert-unique :
      (s s' : S) (d : Doc) → c.insert_one s d ≡ inserted s' → c.find_one s (key d) ≡ none
