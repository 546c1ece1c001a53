-- ===== src/Idempotency.antt =====
-- backend/app/middleware/idempotency.py: a response is stored under the request's Idempotency-Key and is
-- given again to a request that bears the key.
pub mod Kept
pub mod Replay
use bagsvault.Base.{
  ℕ, ◌-◌, Bool, true, false, not, ◌||◌, ◌&&◌, List, [], ◌∷◌, Option, none, some, Str, codes, eq_str,
  is_empty, leb, map, if◌then◌else◌,
}
use bagsvault.Exceptions.{Exn, domain, raised, conflict, other, Result, ok, err}
use bagsvault.Mongo.{Insert, inserted, duplicate, failed, Collection}
use bagsvault.Solana.Instruction.{Bytes}

pub record Header : Type 0 where
  pub name : Str
  pub value : Str

-- What the middleware reads of a request; `key` is the header `Idempotency-Key`.
pub record Request : Type 0 where
  pub method : Str
  pub path : Str
  pub key : Option Str
  pub body : Bytes

-- A response: its status, its raw headers, its body, chunks joined, and the attribute `media_type`, which is
-- not sent.
pub record Response : Type 0 where
  pub status_code : ℕ
  pub headers : List Header
  pub body : Bytes
  pub media_type : Option Str

-- A row of `db.idempotency_keys`.
pub record Record : Type 0 where
  pub key : Str
  pub body_hash : Str
  pub method : Str
  pub path : Str
  pub status_code : ℕ
  pub response_body : Bytes
  pub response_headers : List Header
  pub created_at : ℕ

to_upper : ℕ → ℕ
to_upper c = if leb b'a' c && leb c b'z' then c - 32 else c

-- s.upper(), on ASCII
upper : Str → Str
unfolding to_upper
upper s = map to_upper s

unfoldable pub is_idempotent : Str → Bool
unfolding upper eq_str
is_idempotent method =
    let m = upper method in
    eq_str m (codes "POST") || (eq_str m (codes "PUT") || eq_str m (codes "PATCH"))

-- A dictionary of headers, in the order of its keys.
unfoldable pub has_name : Str → List Header → Bool
has_name n [] = false
has_name n (h ∷ hs) = eq_str h.name n || has_name n hs

-- headers[name] = value
unfoldable pub set_header : Header → List Header → List Header
set_header new [] = new ∷ []
set_header new (h ∷ hs) =
    let rest = set_header new hs in if eq_str h.name new.name then new ∷ hs else h ∷ rest

-- the loop of `_replay_response`: the last value of a name stays
unfoldable pub replayed_headers : List Header → List Header → List Header
replayed_headers [] d = d
replayed_headers (h ∷ hs) d = replayed_headers hs (set_header h d)

-- dict(response.headers): a name has the value that it has first
unfoldable pub dict_of : List Header → List Header → List Header
dict_of [] d = d
dict_of (h ∷ hs) d =
    let kept = dict_of hs d in
    let added = dict_of hs (set_header h d) in if has_name h.name d then kept else added

-- The libraries and the application: `rerender` is `json.loads` and then `JSONResponse`'s rendering, which
-- may raise, and is none for a body that is not JSON; `init_headers` is what Starlette's `Response` makes of the headers that
-- it is given, for its media type, its status and its body.
pub record App (S W : Type 0) : Type 0 where
  pub idempotency_keys : Collection S Record
  pub hash_body : Bytes → Str
  pub rerender : Bytes → Option (Result Bytes)
  pub init_headers : Option Str → ℕ → Bytes → List Header → List Header
  pub call_next : W → Request → W × Result Response

-- The rows, and the state of the application behind the middleware.
pub record World (S W : Type 0) : Type 0 where
  pub rows : S
  pub inner : W

abbrev pub json_type : Str
json_type = codes "application/json"

module _ {S W : Type 0} (app : App S W) where
  -- Starlette's `Response(content, status_code, headers, media_type)`
  unfoldable pub new_response : Bytes → ℕ → List Header → Option Str → Response
  new_response body status_code headers media_type = record {
    status_code = status_code;
    headers = app.init_headers media_type status_code body headers;
    body = body;
    media_type = media_type;
  }

  -- `JSONResponse` for a body that is JSON, and `Response` for another
  unfoldable pub typed_response : Option (Result Bytes) → Bytes → ℕ → List Header → Result Response
  unfolding new_response
  typed_response none raw status_code headers = ok (new_response raw status_code headers none)
  typed_response (some (err e)) raw status_code headers = err e
  typed_response (some (ok body)) raw status_code headers =
      ok (new_response body status_code headers (some json_type))

  -- `_replay_response`
  unfoldable pub replay_response : Record → Result Response
  unfolding typed_response
  replay_response r =
      typed_response (app.rerender r.response_body) r.response_body r.status_code
        (replayed_headers r.response_headers [])

  passed : S → W × Result Response → World S W × Result Response
  passed rows (w, answer) = (record { rows = rows; inner = w }, answer)

  unfoldable pub record_of : ℕ → Request → Str → Response → Record
  record_of now q key response = record {
    key = key;
    body_hash = app.hash_body q.body;
    method = q.method;
    path = q.path;
    status_code = response.status_code;
    response_body = response.body;
    response_headers = response.headers;
    created_at = now;
  }

  -- the response that the client gets, made anew
  unfoldable pub forwarded : Response → Response
  unfolding new_response
  forwarded response =
      new_response response.body response.status_code (dict_of response.headers [])
        response.media_type

  -- A duplicate key means that a concurrent request was faster.
  unfoldable pub stored : S → W → Response → Insert S → World S W × Result Response
  unfolding forwarded
  stored rows w response (inserted rows') =
      (record { rows = rows'; inner = w }, ok (forwarded response))
  stored rows w response duplicate = (record { rows = rows; inner = w }, ok (forwarded response))
  stored rows w response (failed message) =
      (record { rows = rows; inner = w }, err (raised other message))

  -- An exception of the application passes through, and nothing is stored.
  unfoldable pub buffered :
      ℕ → S → Request → Str → W × Result Response → World S W × Result Response
  buffered now rows q key (w, err e) = (record { rows = rows; inner = w }, err e)
  buffered now rows q key (w, ok response) =
      stored rows w response (app.idempotency_keys.insert_one rows (record_of now q key response))

  unfoldable pub dispatch_key :
      ℕ → World S W → Request → Str → Option Record → World S W × Result Response
  dispatch_key now w q key none = buffered now w.rows q key (app.call_next w.inner q)
  dispatch_key now w q key (some existing) =
      if eq_str existing.body_hash (app.hash_body q.body) then (w, replay_response existing) else (
        w,
        err (domain conflict (codes "Idempotency-Key reused with a different request body.")),
      )

  -- with the header, where it is not empty
  unfoldable pub dispatch_header :
      ℕ → World S W → Request → Option Str → World S W × Result Response
  unfolding passed
  dispatch_header now w q none = passed w.rows (app.call_next w.inner q)
  dispatch_header now w q (some key) =
      if is_empty key
      then passed w.rows (app.call_next w.inner q)
      else dispatch_key now w q key (app.idempotency_keys.find_one w.rows key)

  unfoldable pub dispatch : ℕ → World S W → Request → World S W × Result Response
  unfolding passed
  dispatch now w q =
      if is_idempotent q.method
      then dispatch_header now w q q.key
      else passed w.rows (app.call_next w.inner q)
