-- ===== src/Idempotency/Replay.antt =====
-- What a client that sends a request again gets.
use bagsvault.Base.{
  ℕ, ◌++◌, map, lower, Bool-cases, inl, inr, Option, true, false, List, [], ◌∷◌, none, some, Str,
  codes, ◌≡◌, refl, sym, ◌∙◌, ap, eq_str, eq_str_refl, is_empty, append-nil, append_assoc,
}
use bagsvault.Exceptions.{domain, conflict, Result, ok, err, ok-injective}
use bagsvault.Mongo.{inserted, Laws}
use bagsvault.Solana.Instruction.{Bytes}
use bagsvault.Idempotency.Kept.{key_of, Timed, dispatch_all, dispatch_all-Has}
use bagsvault.Idempotency.{
  Header, Request, Response, Record, is_idempotent, has_name, set_header, replayed_headers, dict_of,
  App, World, new_response, typed_response, json_type, forwarded, replay_response, record_of,
  stored, buffered, dispatch_key, dispatch_header, dispatch,
}

-- No name occurs twice: each is new to the dictionary that those before it made.
abbrev pub AreDistinct : List Header → List Header → Type 0
AreDistinct [] d = Unit
AreDistinct (h ∷ hs) d = (has_name h.name d ≡ false) × AreDistinct hs (set_header h d)

set_header-new :
    (h : Header) (d : List Header) → has_name h.name d ≡ false → set_header h d ≡ d ++ (h ∷ [])
unfolding set_header has_name
set_header-new h [] new = refl
set_header-new h (x ∷ d) new = elim (Bool-cases (eq_str x.name h.name)) [
  | inl e ↦ let new' = rw e at new in absurd (cc)
  | inr e ↦ let new' = rw e at new in rw e (ap (λ v. x ∷ v) (set_header-new h d new'))
]

dict_of-AreDistinct : (hs d : List Header) → AreDistinct hs d → dict_of hs d ≡ d ++ hs
unfolding dict_of
dict_of-AreDistinct [] d h = sym (append-nil d)
dict_of-AreDistinct (x ∷ hs) d (new, rest) = rw new (
    dict_of-AreDistinct hs (set_header x d) rest
    ∙ ap (λ v. v ++ hs) (set_header-new x d new)
    ∙ append_assoc d (x ∷ []) hs)

replayed_headers-AreDistinct :
    (hs d : List Header) → AreDistinct hs d → replayed_headers hs d ≡ d ++ hs
unfolding replayed_headers
replayed_headers-AreDistinct [] d h = sym (append-nil d)
replayed_headers-AreDistinct (x ∷ hs) d (new, rest) =
    replayed_headers-AreDistinct hs (set_header x d) rest
    ∙ ap (λ v. v ++ hs) (set_header-new x d new)
    ∙ append_assoc d (x ∷ []) hs

-- The length and the type of the content are named, and all names are in lower case.
abbrev pub IsComplete : List Header → Type 0
IsComplete hs =
    (has_name (codes "content-length") hs ≡ true)
    × (has_name (codes "content-type") hs ≡ true)
    × (map (λ (h : Header). lower h.name) hs ≡ map (λ (h : Header). h.name) hs)

-- Starlette adds the length and the type where they are missing, writes names in lower case, and changes
-- nothing else.
abbrev pub KeepsComplete : {S W : Type 0} → App S W → Type 0
KeepsComplete app =
    (media_type : Option Str) (status_code : ℕ) (body : Bytes) (hs : List Header)
    → IsComplete hs
    → app.init_headers media_type status_code body hs ≡ hs

module _ {S W : Type 0} (app : App S W) where
  -- The requests that the middleware looks at: an unsafe method, and a key.
  abbrev pub Keyed : Request → Str → Type 0
  Keyed q key = (is_idempotent q.method ≡ true) × (q.key ≡ some key) × (is_empty key ≡ false)

  dispatch-Keyed :
      (now : ℕ) (w : World S W) (q : Request) (key : Str)
      → Keyed q key
      → dispatch app now w q
        ≡ dispatch_key app now w q key (app.idempotency_keys.find_one w.rows key)
  unfolding dispatch dispatch_header
  dispatch-Keyed now w q key (unsafe, has, full) = rw (unsafe, has) (rw full)

  -- A request with a key under which a row is stored, and a body with another hash than the row's, gets
  -- the conflict; the application does not run and nothing is stored.
  pub dispatch-conflict :
      (now : ℕ) (w : World S W) (q : Request) (key : Str) (existing : Record)
      → Keyed q key
      → app.idempotency_keys.find_one w.rows key ≡ some existing
      → eq_str existing.body_hash (app.hash_body q.body) ≡ false
      → dispatch app now w q
        ≡ (w, err (domain conflict (codes "Idempotency-Key reused with a different request body.")))
  unfolding dispatch_key
  dispatch-conflict now w q key existing keyed found differ =
      dispatch-Keyed now w q key keyed ∙ rw found (rw differ)

  found_after :
      Laws key_of app.idempotency_keys
      → (now : ℕ) (s s' : S) (q : Request) (key : Str) (raw : Response)
      → app.idempotency_keys.insert_one s (record_of app now q key raw) ≡ inserted s'
      → app.idempotency_keys.find_one s' key ≡ some (record_of app now q key raw)
  unfolding record_of
  found_after laws now s s' q key raw e =
      laws.find-insert s s' (record_of app now q key raw) key e ∙ rw (eq_str_refl key)

  module _ (keeps : KeepsComplete app) where
    forwarded-IsComplete :
        (raw : Response)
        → AreDistinct raw.headers []
        → IsComplete raw.headers
        → forwarded app raw ≡ raw
    unfolding forwarded new_response
    forwarded-IsComplete raw distinct complete =
        let dict = dict_of-AreDistinct raw.headers [] distinct in
        rw dict (rw (keeps raw.media_type raw.status_code raw.body raw.headers complete) refl)

    -- What is sent over the wire.
    abbrev pub AsSent : Response → Response → Type 0
    AsSent raw r =
        (r.status_code ≡ raw.status_code) × (r.headers ≡ raw.headers) × (r.body ≡ raw.body)

    abbrev Returns : Response → Result Response → Type 0
    Returns raw answer = (r : Response) × (answer ≡ ok r) × AsSent raw r

    typed_response-Returns :
        (raw : Response) (o : Option (Result Bytes))
        → IsComplete raw.headers
        → ((b : Result Bytes) → o ≡ some b → b ≡ ok raw.body)
        → Returns raw (typed_response app o raw.body raw.status_code raw.headers)
    unfolding typed_response new_response
    typed_response-Returns raw none complete fixed =
        (_, refl, (refl, keeps none raw.status_code raw.body raw.headers complete, refl))
    typed_response-Returns raw (some (err e)) complete fixed =
        let same = fixed (err e) refl in absurd (cc)
    typed_response-Returns raw (some (ok body)) complete fixed = (
      _,
      refl,
      (
        refl,
        keeps (some json_type) raw.status_code body raw.headers complete,
        ok-injective (fixed (ok body) refl),
      ),
    )

    replay_response-Returns :
        (now : ℕ) (q : Request) (key : Str) (raw : Response)
        → AreDistinct raw.headers []
        → IsComplete raw.headers
        → ((b : Result Bytes) → app.rerender raw.body ≡ some b → b ≡ ok raw.body)
        → Returns raw (replay_response app (record_of app now q key raw))
    unfolding replay_response record_of
    replay_response-Returns now q key raw distinct complete fixed =
        rw (replayed_headers-AreDistinct raw.headers [] distinct)
          (typed_response-Returns raw (app.rerender raw.body) complete fixed)

    dispatch-replays :
        (now now' : ℕ) (w : World S W) (q q' : Request) (key : Str) (raw : Response)
        → Keyed q' key
        → q'.body ≡ q.body
        → app.idempotency_keys.find_one w.rows key ≡ some (record_of app now q key raw)
        → dispatch app now' w q' ≡ (w, replay_response app (record_of app now q key raw))
    unfolding dispatch_key record_of
    dispatch-replays now now' w q q' key raw keyed same found =
        dispatch-Keyed now' w q' key keyed
        ∙ rw found (rw same (rw (eq_str_refl (app.hash_body q.body)) refl))

    -- A request with a new key whose response is stored, and whose response has no header twice, has the length
    -- and the type of its content among the headers, and has a body that is rendered again as it is or is not
    -- JSON: the client gets the application's response; and, after any further requests, while no row has expired,
    -- every request with the key and the same body, to whatever path and with whatever unsafe method, gets the
    -- same status, headers and body, while the application does not run and nothing changes.
    pub dispatch_replay :
        Laws key_of app.idempotency_keys
        → (now now' : ℕ) (w : World S W) (q q' : Request) (key : Str) (inner' : W) (raw : Response)
          (rows' : S) (later : List Timed)
        → Keyed q key
        → app.idempotency_keys.find_one w.rows key ≡ none
        → app.call_next w.inner q ≡ (inner', ok raw)
        → AreDistinct raw.headers []
        → IsComplete raw.headers
        → ((b : Result Bytes) → app.rerender raw.body ≡ some b → b ≡ ok raw.body)
        → app.idempotency_keys.insert_one w.rows (record_of app now q key raw) ≡ inserted rows'
        → Keyed q' key
        → q'.body ≡ q.body
        → let after : World S W = record { rows = rows'; inner = inner' } in
          let v = dispatch_all app after later in
          (dispatch app now w q ≡ (after, ok raw))
          × (r : Response) × (dispatch app now' v q' ≡ (v, ok r))
          × (r.status_code ≡ raw.status_code)
          × (r.headers ≡ raw.headers)
          × (r.body ≡ raw.body)
    unfolding dispatch_key buffered stored
    dispatch_replay laws now now' w q q' key inner' raw rows' later keyed new ran distinct complete
          fixed put keyed' same =
        let row = record_of app now q key raw in
        let after : World S W = record { rows = rows'; inner = inner' } in
        let there = found_after laws now w.rows rows' q key raw put in
        let found = dispatch_all-Has app laws later after row key there in
        let (r, is, (status, headers, body)) =
          replay_response-Returns now q key raw distinct complete fixed in
        (
          dispatch-Keyed now w q key keyed
              ∙ rw (new, ran) (rw (put, forwarded-IsComplete raw distinct complete) refl),
          r,
          dispatch-replays now now' (dispatch_all app after later) q q' key raw keyed' same found
              ∙ ap (λ a. (dispatch_all app after later, a)) is,
          status,
          headers,
          body,
        )
