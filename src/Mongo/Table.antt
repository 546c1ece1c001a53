-- ===== src/Mongo/Table.antt =====
-- A collection as a list of documents, newest first: the laws of `Mongo` can be met.
use bagsvault.Base.{Str, ◌≡◌, refl, List, [], ◌∷◌, Option, none, some, eq_str, if◌then◌else◌}
use bagsvault.Mongo.{Insert, inserted, duplicate, Collection, Laws}

module _ {Doc : Type 0} (key : Doc → Str) where
  unfoldable pub find : List Doc → Str → Option Doc
  find [] k = none
  find (d ∷ ds) k = if eq_str (key d) k then some d else find ds k

  put : List Doc → Doc → Option Doc → Insert (List Doc)
  put ds d none = inserted (d ∷ ds)
  put ds d (some _) = duplicate

  unfoldable pub insert : List Doc → Doc → Insert (List Doc)
  unfolding put
  insert ds d = put ds d (find ds (key d))

  abbrev pub table : Collection (List Doc) Doc
  table = record { find_one = find; insert_one = insert }

  put-inserted :
      (ds s' : List Doc) (d : Doc) (o : Option Doc)
      → put ds d o ≡ inserted s'
      → (o ≡ none) × (s' ≡ d ∷ ds)
  unfolding put
  put-inserted ds s' d none h = (refl, cc)
  put-inserted ds s' d (some x) h = absurd (cc)

  pub table-Laws : Laws key table
  unfolding insert find
  table-Laws = record {
    find-insert = λ s s' d k h. let (_, is) = put-inserted s s' d (find s (key d)) h in rw is;
    insert-unique = λ s s' d h. (put-inserted s s' d (find s (key d)) h).0;
  }

  -- A key that is there is refused, and only such a key.
  pub table_refuses :
      (ds : List Doc) (d existing : Doc) → find ds (key d) ≡ some existing → insert ds d ≡ duplicate
  unfolding insert put
  table_refuses ds d existing h = rw h

  put-duplicate :
      (ds : List Doc) (d : Doc) (o : Option Doc)
      → put ds d o ≡ duplicate
      → (existing : Doc) × (o ≡ some existing)
  unfolding put
  put-duplicate ds d none h = absurd (cc)
  put-duplicate ds d (some x) h = (x, refl)

  pub table_has :
      (ds : List Doc) (d : Doc)
      → insert ds d ≡ duplicate
      → (existing : Doc) × (find ds (key d) ≡ some existing)
  unfolding insert
  table_has ds d h = put-duplicate ds d (find ds (key d)) h
