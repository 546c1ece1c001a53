-- ===== src/Idempotency/Kept.antt =====
-- A row of the idempotency keys stays: whatever requests come, the middleware only inserts rows with new keys.
use bagsvault.Base.{
  ℕ, true, List, [], ◌∷◌, Option, none, some, Str, ◌≡◌, refl, ◌∙◌, eq_str, eq_str_iff, Bool-cases,
  inl, inr, is_empty, if◌then◌else◌,
}
use bagsvault.Exceptions.{Result, ok, err}
use bagsvault.Mongo.{Insert, inserted, duplicate, failed, Laws}
use bagsvault.Idempotency.{
  Request, Response, Record, is_idempotent, App, World, record_of, stored, buffered, dispatch_key,
  dispatch_header, dispatch,
}

abbrev pub key_of : Record → Str
key_of r = r.key

-- A request and the time at which it comes.
pub record Timed : Type 0 where
  pub now : ℕ
  pub request : Request

-- The world after these requests, one after the other.
pub dispatch_all : {S W : Type 0} → App S W → World S W → List Timed → World S W
dispatch_all app w [] = w
dispatch_all app w (x ∷ xs) = dispatch_all app (dispatch app x.now w x.request).0 xs

module _ {S W : Type 0} (app : App S W) (laws : Laws key_of app.idempotency_keys) where
  abbrev Has : S → Str → Record → Type 0
  Has s k row = app.idempotency_keys.find_one s k ≡ some row

  chosen-stays :
      (b : Option Record) (new row : Record) (k : Str)
      → b ≡ some row
      → (eq_str new.key k ≡ true → b ≡ none)
      → (if eq_str new.key k then some new else b) ≡ some row
  chosen-stays b new row k h other = elim (Bool-cases (eq_str new.key k)) [
    | inl e ↦ let gone = other e in absurd (cc)
    | inr e ↦ rw e h
  ]

  stored-Has :
      (s : S) (w : W) (response : Response) (new row : Record) (k : Str) (i : Insert S)
      → app.idempotency_keys.insert_one s new ≡ i
      → Has s k row
      → Has (stored app s w response i).0.rows k row
  unfolding stored
  stored-Has s w response new row k (inserted s') e h =
      laws.find-insert s s' new k e
      ∙ chosen-stays (app.idempotency_keys.find_one s k) new row k h
          (λ same. rw (← (eq_str_iff new.key k).0 same) (laws.insert-unique s s' new e))
  stored-Has s w response new row k duplicate e h = h
  stored-Has s w response new row k (failed message) e h = h

  buffered-Has :
      (now : ℕ) (s : S) (q : Request) (key : Str) (w : W) (r : Result Response) (row : Record)
      (k : Str)
      → Has s k row
      → Has (buffered app now s q key (w, r)).0.rows k row
  unfolding buffered
  buffered-Has now s q key w (err e) row k h = h
  buffered-Has now s q key w (ok response) row k h =
      stored-Has s w response (record_of app now q key response) row k _ refl h

  dispatch_key-Has :
      (now : ℕ) (w : World S W) (q : Request) (key : Str) (o : Option Record) (row : Record)
      (k : Str)
      → Has w.rows k row
      → Has (dispatch_key app now w q key o).0.rows k row
  unfolding dispatch_key
  dispatch_key-Has now w q key none row k h =
      buffered-Has now w.rows q key (app.call_next w.inner q).0 (app.call_next w.inner q).1 row k h
  dispatch_key-Has now w q key (some existing) row k h =
      elim (Bool-cases (eq_str existing.body_hash (app.hash_body q.body))) [
        | inl e ↦ rw e h
        | inr e ↦ rw e h
      ]

  dispatch_header-Has :
      (now : ℕ) (w : World S W) (q : Request) (o : Option Str) (row : Record) (k : Str)
      → Has w.rows k row
      → Has (dispatch_header app now w q o).0.rows k row
  unfolding dispatch_header
  dispatch_header-Has now w q none row k h = h
  dispatch_header-Has now w q (some key) row k h = elim (Bool-cases (is_empty key)) [
    | inl e ↦ rw e h
    | inr e ↦ rw e (dispatch_key-Has now w q key (app.idempotency_keys.find_one w.rows key) row k h)
  ]

  -- A request keeps every row.
  dispatch-Has :
      (now : ℕ) (w : World S W) (q : Request) (row : Record) (k : Str)
      → Has w.rows k row
      → Has (dispatch app now w q).0.rows k row
  unfolding dispatch
  dispatch-Has now w q row k h = elim (Bool-cases (is_idempotent q.method)) [
    | inl e ↦ rw e (dispatch_header-Has now w q q.key row k h)
    | inr e ↦ rw e h
  ]

  -- So do any requests.
  pub dispatch_all-Has :
      (later : List Timed) (w : World S W) (row : Record) (k : Str)
      → app.idempotency_keys.find_one w.rows k ≡ some row
      → app.idempotency_keys.find_one (dispatch_all app w later).rows k ≡ some row
  unfolding dispatch_all
  dispatch_all-Has [] w row k h = h
  dispatch_all-Has (x ∷ xs) w row k h =
      dispatch_all-Has xs _ row k (dispatch-Has x.now w x.request row k h)
