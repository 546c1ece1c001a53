-- ===== src/Mongo/Upserts.antt =====
-- What the services use of a collection into which documents are put by `update_one` with `upsert=True`, on
-- one text field: the driver's operations are arguments.
use bagsvault.Base.{Str, ◌≡◌, Option, some, eq_str, if◌then◌else◌}
use bagsvault.Exceptions.{Result, ok}

pub record Upserts (S Doc : Type 0) : Type 0 where
  pub find_one : S → Str → Option Doc
  pub upsert_one : S → Str → Doc → Result S

-- A document that was put is found under its key, and nothing else changes.
pub record Laws {S Doc : Type 0} (c : Upserts S Doc) : Type 0 where
  pub finds :
      (s s' : S) (k j : Str) (d : Doc)
      → c.upsert_one s k d ≡ ok s'
      → c.find_one s' j ≡ (if eq_str k j then some d else c.find_one s j)
